-- ===== src/Platform/Households/Ensuring.antt =====
-- What an action that returns ensures about the places of the events, and the rules for the parts of
-- an action. What throws in a transaction is rolled back, so nothing is asked of it.
use save_the_date.Base.{
  ◌≡◌, refl, sym, subst, Bool, true, false, Option, none, some, if◌then◌else◌, Outcome, returned,
  thrown, resume, ◌>>=◌, pure,
}
use save_the_date.Platform.Capability.{DomainError}
use save_the_date.Platform.Admission.Model.{Db, World, Action}
use save_the_date.Platform.Admission.Guards.{query, update, settle, transaction, refuse, needed}
use save_the_date.Platform.Admission.Leaves.{Leaves}
use save_the_date.Platform.Households.Places.{Places, places, Booked}

abbrev pub Good {ℓ} : {A : Type ℓ} → (A → Places → Type 0) → Outcome DomainError A → World → Type 0
Good Q (returned a) w = Q a (places w.db)
Good Q (thrown e) w = Unit

pub record Ensures {ℓ} {A : Type ℓ} (P : Places → Type 0) (m : Action A) (Q : A → Places → Type 0)
    : Type 0 where
  pub ensures : (w : World) → P (places w.db) → Good Q (m w).0 (m w).1

-- From booked places on, the places are booked, whether the action returns or throws.
pub record StaysBooked {ℓ} {A : Type ℓ} (m : Action A) : Type 0 where
  pub stays : (w : World) → Booked (places w.db) → Booked (places (m w).1.db)

module _ {ℓ κ} {A : Type ℓ} {B : Type κ} where
  Good-resume :
      (Q : A → Places → Type 0) (R : B → Places → Type 0) (k : A → Action B)
      → ((a : A) → Ensures (Q a) (k a) R)
      → (r : Outcome DomainError A) (w : World) → Good Q r w
      → Good R (resume k r w).0 (resume k r w).1
  Good-resume Q R k h (returned a) w g = (h a).ensures w g
  Good-resume Q R k h (thrown e) w g = tt

  pub Ensures-bind :
      {P : Places → Type 0} {m : Action A} {k : A → Action B} (Q : A → Places → Type 0)
      {R : B → Places → Type 0}
      → Ensures P m Q
      → ((a : A) → Ensures (Q a) (k a) R)
      → Ensures P (m >>= k) R
  Ensures-bind {P} {m} {k} Q {R} g h = record {
    ensures = λ w p. Good-resume Q R k h (m w).0 (m w).1 (g.ensures w p);
  }

module _ {ℓ} {A : Type ℓ} where
  Good-left :
      (P : Places → Type 0) (r : Outcome DomainError A) (w w' : World)
      → places w'.db ≡ places w.db
      → P (places w.db)
      → Good (λ (a : A). P) r w'
  Good-left P (returned a) w w' same_places p = subst P (sym same_places) p
  Good-left P (thrown e) w w' same_places p = tt

  pub Ensures-left : {P : Places → Type 0} {m : Action A} → Leaves places m → Ensures P m (λ a. P)
  Ensures-left {P} {m} g = record { ensures = λ w p. Good-left P (m w).0 w (m w).1 (g.leaves w) p }

  -- The first action leaves the places alone.
  pub Ensures-after {κ} :
      {B : Type κ} {P : Places → Type 0} {m : Action A} {k : A → Action B} {R : B → Places → Type 0}
      → Leaves places m
      → ((a : A) → Ensures P (k a) R)
      → Ensures P (m >>= k) R
  Ensures-after {P} g h = Ensures-bind (λ a. P) (Ensures-left g) h

  pub Ensures-pure :
      {P : Places → Type 0} {Q : A → Places → Type 0} (a : A)
      → ((v : Places) → P v → Q a v)
      → Ensures P (pure a) Q
  Ensures-pure a h = record { ensures = λ w p. h (places w.db) p }

  pub Ensures-if :
      {P : Places → Type 0} {Q : A → Places → Type 0} (b : Bool) (m n : Action A)
      → (b ≡ true → Ensures P m Q)
      → (b ≡ false → Ensures P n Q)
      → Ensures P (if b then m else n) Q
  Ensures-if true m n g h = g refl
  Ensures-if false m n g h = h refl

  pub Ensures-weak :
      {P P' : Places → Type 0} {Q : A → Places → Type 0} {m : Action A}
      → ((v : Places) → P v → P' v)
      → Ensures P' m Q
      → Ensures P m Q
  Ensures-weak h g = record { ensures = λ w p. g.ensures w (h (places w.db) p) }

  Good-post :
      (Q R : A → Places → Type 0) (r : Outcome DomainError A) (w : World)
      → ((a : A) (v : Places) → Q a v → R a v)
      → Good Q r w
      → Good R r w
  Good-post Q R (returned a) w h g = h a (places w.db) g
  Good-post Q R (thrown e) w h g = tt

  pub Ensures-post :
      {P : Places → Type 0} {Q R : A → Places → Type 0} {m : Action A}
      → Ensures P m Q
      → ((a : A) (v : Places) → Q a v → R a v)
      → Ensures P m R
  Ensures-post {P} {Q} {R} {m} g h = record {
    ensures = λ w p. Good-post Q R (m w).0 (m w).1 h (g.ensures w p);
  }

  settled :
      (before : Db) (r : Outcome DomainError A) (w : World)
      → Booked (places before)
      → Good (λ (a : A). Booked) r w
      → Booked (places (settle before (r, w)).1.db)
  unfolding settle
  settled before (returned a) w b g = g
  settled before (thrown e) w b g = b

  pub StaysBooked-transaction :
      {m : Action A} → Ensures Booked m (λ a. Booked) → StaysBooked (transaction m)
  unfolding transaction
  StaysBooked-transaction {m} g = record {
    stays = λ w b. settled w.db (m w).0 (m w).1 b (g.ensures w b);
  }

  pub StaysBooked-Leaves : {m : Action A} → Leaves places m → StaysBooked m
  StaysBooked-Leaves g = record { stays = λ w b. subst Booked (sym (g.leaves w)) b }

  settled_left :
      (before : Db) (r : Outcome DomainError A) (w : World)
      → places w.db ≡ places before
      → places (settle before (r, w)).1.db ≡ places before
  unfolding settle
  settled_left before (returned a) w h = h
  settled_left before (thrown e) w h = refl

  pub Leaves-transaction : {m : Action A} → Leaves places m → Leaves places (transaction m)
  unfolding transaction
  Leaves-transaction {m} g = record { leaves = λ w. settled_left w.db (m w).0 (m w).1 (g.leaves w) }

  pub Leaves-needed : (e : DomainError) (o : Option A) → Leaves places (needed e o)
  unfolding needed
  Leaves-needed e none = record { leaves = λ w. refl }
  Leaves-needed e (some a) = record { leaves = λ w. refl }

module _ {A : Type 0} where
  -- What is read of the places is known.
  pub Ensures-read :
      {P : Places → Type 0} (f : Places → A)
      → Ensures P (query (λ db. f (places db))) (λ a v. P v × (a ≡ f v))
  unfolding query
  Ensures-read f = record { ensures = λ w p. (p, refl) }

  -- A row that is needed was there.
  pub Ensures-needed :
      {P : Places → Type 0} (e : DomainError) (o : Option A)
      → Ensures P (needed e o) (λ a v. P v × (o ≡ some a))
  unfolding needed
  Ensures-needed e none = record { ensures = λ w p. tt }
  Ensures-needed e (some a) = record { ensures = λ w p. (p, refl) }

-- Past a guard its test failed.
pub Ensures-refuse :
    {P : Places → Type 0} (b : Bool) (e : DomainError)
    → Ensures P (refuse b e) (λ u v. P v × (b ≡ false))
unfolding refuse
Ensures-refuse true e = record { ensures = λ w p. tt }
Ensures-refuse false e = record { ensures = λ w p. (p, refl) }

pub Ensures-update :
    {P Q : Places → Type 0} (f : Db → Db)
    → ((db : Db) → P (places db) → Q (places (f db)))
    → Ensures P (update f) (λ u. Q)
unfolding update
Ensures-update f h = record { ensures = λ w p. h w.db p }
