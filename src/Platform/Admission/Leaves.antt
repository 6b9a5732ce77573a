-- ===== src/Platform/Admission/Leaves.antt =====
-- What an action leaves alone of the database, whichever part of it one looks at, and what it takes
-- for a sequence of actions to return.
use save_the_date.Base.{
  ◌≡◌, refl, ap, ◌∙◌, Bool, true, false, Text, if◌then◌else◌, Outcome, returned, thrown, resume,
  ◌>>=◌, pure, arith,
}
use save_the_date.Platform.Capability.{DomainError}
use save_the_date.Platform.Admission.Model.{Db, World, Action, LedgerRecord, Circumstances, Writing}
use save_the_date.Platform.Admission.Guards.{query, update, refuse, recorded, write_ledger}

-- The part `f` of the database is the same afterwards, whether the action returns or throws.
pub record Leaves {ℓ} {V : Type 0} {A : Type ℓ} (f : Db → V) (m : Action A) : Type 0 where
  pub leaves : (w : World) → f (m w).1.db ≡ f w.db

module _ {ℓ κ} {V : Type 0} {A : Type ℓ} {B : Type κ} where
  Leaves-resume :
      (f : Db → V) (k : A → Action B)
      → ((a : A) → Leaves f (k a))
      → (r : Outcome DomainError A) (w : World) → f (resume k r w).1.db ≡ f w.db
  Leaves-resume f k h (returned a) w = (h a).leaves w
  Leaves-resume f k h (thrown e) w = refl

  pub Leaves-bind :
      {f : Db → V} {m : Action A} {k : A → Action B}
      → Leaves f m
      → ((a : A) → Leaves f (k a))
      → Leaves f (m >>= k)
  Leaves-bind {f} {m} {k} g h = record {
    leaves = λ w. Leaves-resume f k h (m w).0 (m w).1 ∙ g.leaves w;
  }

module _ {ℓ} {V : Type 0} {A : Type ℓ} {f : Db → V} where
  pub Leaves-pure : (a : A) → Leaves f (pure a)
  Leaves-pure a = record { leaves = λ w. refl }

  pub Leaves-query : (g : Db → A) → Leaves f (query g)
  unfolding query
  Leaves-query g = record { leaves = λ w. refl }

  pub Leaves-if :
      (b : Bool) {m n : Action A} → Leaves f m → Leaves f n → Leaves f (if b then m else n)
  Leaves-if true g h = g
  Leaves-if false g h = h

module _ {V : Type 0} {f : Db → V} where
  pub Leaves-refuse : (b : Bool) (e : DomainError) → Leaves f (refuse b e)
  unfolding refuse
  Leaves-refuse true e = record { leaves = λ w. refl }
  Leaves-refuse false e = record { leaves = λ w. refl }

  pub Leaves-update : (g : Db → Db) → ((db : Db) → f (g db) ≡ f db) → Leaves f (update g)
  unfolding update
  Leaves-update g h = record { leaves = λ w. h w.db }

  pub Leaves-recorded : (c : Circumstances) (pass_id : Text) → Leaves f (recorded c pass_id)
  unfolding recorded
  Leaves-recorded c pass_id = record { leaves = λ w. ground arith }

  pub Leaves-write_ledger : (how : Writing) (r : LedgerRecord) → Leaves f (write_ledger how r)
  unfolding write_ledger
  Leaves-write_ledger how r = record { leaves = λ w. ground arith }

pub ruleset leaving = (
  Leaves-bind, Leaves-pure, Leaves-query, Leaves-if, Leaves-refuse, Leaves-recorded,
  Leaves-write_ledger,
)

module _ {ℓ κ} {A : Type ℓ} {B : Type κ} where
  pub resume-returned :
      (k : A → Action B) (r : Outcome DomainError A) (w : World) (b : B)
      → (resume k r w).0 ≡ returned b
      → (a : A) × (r ≡ returned a)
  resume-returned k (returned a) w b e = (a, refl)
  resume-returned k (thrown x) w b e = cc

  -- A sequence that returns has a first action that returns.
  pub bind-returned :
      (m : Action A) (k : A → Action B) (w : World) (b : B)
      → ((m >>= k) w).0 ≡ returned b
      → (a : A) × ((m w).0 ≡ returned a)
  bind-returned m k w b e = resume-returned k (m w).0 (m w).1 b e

  -- What follows a first action that returns
  pub bind_step :
      (m : Action A) (k : A → Action B) (w : World) (a : A)
      → (m w).0 ≡ returned a
      → (m >>= k) w ≡ k a (m w).1
  bind_step m k w a e = ap (λ r. resume k r (m w).1) e
