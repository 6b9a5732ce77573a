-- ===== src/Platform/Admission/Effects.antt =====
-- What an action does to the rows of the passes: nothing, or steps of their life. The rules for the
-- parts of an action, by which the operations are followed through their guards.
use save_the_date.Base.{
  ◌≡◌, refl, sym, subst, ◌∙◌, Bool, true, false, Option, none, some, if◌then◌else◌, Outcome,
  returned, thrown, resume, ◌>>=◌, pure, throw,
}
use save_the_date.Platform.Capability.{DomainError}
use save_the_date.Platform.Admission.Model.{Db, World, Action}
use save_the_date.Platform.Admission.Guards.{query, update, settle, transaction, refuse, needed}
use save_the_date.Platform.Admission.Life.{View, rows, view, IsWellFormed, Stepped, Stepped-refl}

-- The action leaves the rows alone, whether it returns or throws.
pub record Keeps {ℓ} {A : Type ℓ} (m : Action A) : Type 0 where
  pub keeps : (w : World) → view (m w).1 ≡ view w

-- The action moves passes along the edges, keeps them well formed, and admits as above, whether it
-- returns or throws.
pub record Safe {ℓ} {A : Type ℓ} (m : Action A) : Type 0 where
  pub steps : (w : World) → IsWellFormed (view w) → Stepped (view w) (view (m w).1)

-- The same, where the rows satisfy a condition when the action begins.
pub record SafeWhen {ℓ} {A : Type ℓ} (H : View → Type 0) (m : Action A) : Type 0 where
  pub steps_when :
      (w : World) → H (view w) → IsWellFormed (view w) → Stepped (view w) (view (m w).1)

module _ {ℓ κ} {A : Type ℓ} {B : Type κ} where
  Keeps-resume :
      (k : A → Action B)
      → ((a : A) → Keeps (k a))
      → (r : Outcome DomainError A) (w : World) → (view (resume k r w).1) ≡ (view w)
  Keeps-resume k h (returned a) w = (h a).keeps w
  Keeps-resume k h (thrown e) w = refl

  pub Keeps-bind :
      {m : Action A} {k : A → Action B} → Keeps m → ((a : A) → Keeps (k a)) → Keeps (m >>= k)
  Keeps-bind {m} {k} g h = record { keeps = λ w. Keeps-resume k h (m w).0 (m w).1 ∙ g.keeps w }

  Safe-resume :
      (k : A → Action B)
      → ((a : A) → Safe (k a))
      → (r : Outcome DomainError A) (w : World) → IsWellFormed (view w)
      → Stepped (view w) (view (resume k r w).1)
  Safe-resume k h (returned a) w wf = (h a).steps w wf
  Safe-resume k h (thrown e) w wf = Stepped-refl (view w) wf

  -- A step after what leaves the passes alone
  pub Safe-bind :
      {m : Action A} {k : A → Action B} → Keeps m → ((a : A) → Safe (k a)) → Safe (m >>= k)
  Safe-bind {m} {k} g h = record {
    steps = λ w wf.
        subst (λ v. Stepped v (view (resume k (m w).0 (m w).1).1)) (g.keeps w)
          (Safe-resume k h (m w).0 (m w).1 (subst IsWellFormed (sym (g.keeps w)) wf));
  }

  SafeWhen-resume :
      (H : View → Type 0) (k : A → Action B)
      → ((a : A) → SafeWhen H (k a))
      → (r : Outcome DomainError A) (w : World) → H (view w)
      → IsWellFormed (view w)
      → Stepped (view w) (view (resume k r w).1)
  SafeWhen-resume H k h (returned a) w c wf = (h a).steps_when w c wf
  SafeWhen-resume H k h (thrown e) w c wf = Stepped-refl (view w) wf

  pub SafeWhen-bind :
      (H : View → Type 0) {m : Action A} {k : A → Action B}
      → Keeps m
      → ((a : A) → SafeWhen H (k a))
      → SafeWhen H (m >>= k)
  SafeWhen-bind H {m} {k} g h = record {
    steps_when = λ w c wf.
        subst (λ v. Stepped v (view (resume k (m w).0 (m w).1).1)) (g.keeps w)
          (SafeWhen-resume H k h (m w).0 (m w).1 (subst H (sym (g.keeps w)) c)
            (subst IsWellFormed (sym (g.keeps w)) wf));
  }

  -- A step before what leaves the passes alone
  pub Safe-then :
      {m : Action A} {k : A → Action B} → Safe m → ((a : A) → Keeps (k a)) → Safe (m >>= k)
  Safe-then {m} {k} g h = record {
    steps =
        λ w wf. subst (Stepped (view w)) (sym (Keeps-resume k h (m w).0 (m w).1)) (g.steps w wf);
  }

pub Keeps-throw {ℓ} : (A : Type ℓ) (e : DomainError) → Keeps {A = A} (throw e)
Keeps-throw A e = record { keeps = λ w. refl }

module _ {ℓ} {A : Type ℓ} where
  pub Safe-Keeps : {m : Action A} → Keeps m → Safe m
  Safe-Keeps {m} g = record {
    steps = λ w wf. subst (Stepped (view w)) (sym (g.keeps w)) (Stepped-refl (view w) wf);
  }

  pub Keeps-pure : (a : A) → Keeps (pure a)
  Keeps-pure a = record { keeps = λ w. refl }

  pub Keeps-query : (f : Db → A) → Keeps (query f)
  unfolding query
  Keeps-query f = record { keeps = λ w. refl }

  pub Keeps-needed : (e : DomainError) (o : Option A) → Keeps (needed e o)
  unfolding needed
  Keeps-needed e none = record { keeps = λ w. refl }
  Keeps-needed e (some a) = record { keeps = λ w. refl }

  pub Keeps-if : (b : Bool) {m n : Action A} → Keeps m → Keeps n → Keeps (if b then m else n)
  Keeps-if true g h = g
  Keeps-if false g h = h

  pub Safe-if : (b : Bool) {m n : Action A} → Safe m → Safe n → Safe (if b then m else n)
  Safe-if true g h = g
  Safe-if false g h = h

  Safe-settle :
      (before : Db) (r : Outcome DomainError A) (w : World)
      → IsWellFormed (rows before)
      → Stepped (rows before) (view w)
      → Stepped (rows before) (view (settle before (r, w)).1)
  unfolding settle
  Safe-settle before (returned a) w wf s = s
  Safe-settle before (thrown e) w wf s = Stepped-refl (rows before) wf

  -- What is rolled back leaves the passes alone.
  pub Safe-transaction : {m : Action A} → Safe m → Safe (transaction m)
  unfolding transaction
  Safe-transaction {m} g = record {
    steps = λ w wf. Safe-settle w.db (m w).0 (m w).1 wf (g.steps w wf);
  }

pub Keeps-refuse : (b : Bool) (e : DomainError) → Keeps (refuse b e)
unfolding refuse
Keeps-refuse true e = record { keeps = λ w. refl }
Keeps-refuse false e = record { keeps = λ w. refl }

pub Keeps-update : (f : Db → Db) → ((db : Db) → rows (f db) ≡ rows db) → Keeps (update f)
unfolding update
Keeps-update f h = record { keeps = λ w. h w.db }
