-- ===== src/HallPasses/Create/Shape.antt =====
-- What a readable token is made of.
use save_the_date.Base.{ℕ, suc, zero, ◌<◌, ◌%◌, ◌≡◌, refl, [], ◌∷◌, Text, All, length, arith}
use save_the_date.HallPasses.Create.{alphabet, letter_at, letter, create_readable_token}

letter_at-All : (P : ℕ → Type 0) (s : Text) (i : ℕ) → All P s → i < length s → P (letter_at s i)
unfolding letter_at
letter_at-All P [] i h below = absurd (let e : i < 0 = below in omega arith)
letter_at-All P (c ∷ s) zero h below = h.0
letter_at-All P (c ∷ s) (suc i) h below = letter_at-All P s i h.1 (omega arith)

-- A letter has what every letter of the alphabet has.
pub letter-All : (P : ℕ → Type 0) (byte : ℕ) → All P alphabet → P (letter byte)
unfolding letter
letter-All P byte h = letter_at-All P alphabet (byte % length alphabet) h (omega arith)

-- The token of eight bytes
pub create_readable_token-letters :
    (a b c d e f g h : ℕ)
    → create_readable_token (a ∷ b ∷ c ∷ d ∷ e ∷ f ∷ g ∷ h ∷ [])
      ≡ b'H'
        ∷ b'P'
        ∷ b'-'
        ∷ letter a
        ∷ letter b
        ∷ letter c
        ∷ letter d
        ∷ b'-'
        ∷ letter e
        ∷ letter f
        ∷ letter g
        ∷ letter h
        ∷ []
unfolding create_readable_token
create_readable_token-letters a b c d e f g h = refl
