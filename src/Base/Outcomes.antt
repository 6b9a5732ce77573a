-- ===== src/Base/Outcomes.antt =====
-- A computation that returns or throws.

pub data Outcome {ℓ} (E : Type 0) (A : Type ℓ) : Type ℓ where
  returned : A → Outcome E A
  thrown : E → Outcome E A

-- `try { m } catch { k }`
abbrev pub caught {ℓ} : {E : Type 0} {A : Type ℓ} → Outcome E A → (E → A) → A
caught (returned a) k = a
caught (thrown e) k = k e

-- A computation over a state that returns or throws. What was written before a throw stays
-- written.
abbrev pub Run {ℓ} : Type 0 → Type 0 → Type ℓ → Type ℓ
Run S E A = S → Outcome E A × S

-- The rest of a computation, by how its first step ended.
abbrev pub resume {ℓ κ} :
    {S : Type 0} {E : Type 0} {A : Type ℓ} {B : Type κ} → (A → Run S E B) → Outcome E A → Run S E B
resume k (returned a) s = k a s
resume k (thrown e) s = (thrown e, s)

infixl 5 ◌>>=◌ ◌>>◌
abbrev pub ◌>>=◌ {ℓ κ} :
    {S : Type 0} {E : Type 0} {A : Type ℓ} {B : Type κ} → Run S E A → (A → Run S E B) → Run S E B
◌>>=◌ m k s = let (r, s') = m s in resume k r s'

abbrev pub ◌>>◌ {ℓ} :
    {S : Type 0} {E : Type 0} {B : Type ℓ} → Run S E (Unit {0}) → Run S E B → Run S E B
m >> k = m >>= λ _. k

abbrev pub pure {ℓ} : {S : Type 0} {E : Type 0} {A : Type ℓ} → A → Run S E A
pure a s = (returned a, s)

abbrev pub throw {ℓ} : {S : Type 0} {E : Type 0} {A : Type ℓ} → E → Run S E A
throw e s = (thrown e, s)
