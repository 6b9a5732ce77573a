-- ===== src/Base/Trim.antt =====
-- Trimming a text twice.
use mathlib.Core.Path.{◌≡◌, refl, ap, ◌∙◌}
use mathlib.Core.Bool.{Bool, true, false, not}
use mathlib.Core.List.{[], ◌∷◌, ◌++◌, reverse, reverse-reverse, reverse-cons, reverse-append}
use Prim.Native.Nat.{ℕ}
use native.Mathlib.Omega.{arith}
use save_the_date.Base.Strings.{Text, is_space, trim_start, trim}

-- Nothing to trim at the start
is_bare : Text → Bool
is_bare [] = true
is_bare (c ∷ s) = not (is_space c)

is_bare-trim_start : (s : Text) → is_bare (trim_start s) ≡ true
unfolding is_bare trim_start
is_bare-trim_start [] = refl
is_bare-trim_start (c ∷ s) = ground (arith, is_bare-trim_start s)

trim_start-bare : (s : Text) → is_bare s ≡ true → trim_start s ≡ s
unfolding is_bare trim_start
trim_start-bare [] h = refl
trim_start-bare (c ∷ s) h = ground arith

trim_start-snoc :
    (s : Text) (c : ℕ) → is_space c ≡ false → trim_start (s ++ c ∷ []) ≡ trim_start s ++ c ∷ []
unfolding trim_start
trim_start-snoc [] c h = rw h refl
trim_start-snoc (d ∷ s) c h = ground (arith, trim_start-snoc s c h)

-- Trimming the end keeps the start bare.
is_bare-trim_end : (s : Text) → is_bare s ≡ true → is_bare (reverse (trim_start (reverse s))) ≡ true
unfolding is_bare trim_start
is_bare-trim_end [] h = refl
is_bare-trim_end (c ∷ s) h =
    let solid : is_space c ≡ false = ground arith in
    rw
      (
        reverse-cons c s,
        trim_start-snoc (reverse s) c solid,
        reverse-append (trim_start (reverse s)) (c ∷ []),
        solid,
      )
      refl

pub trim-trim : (s : Text) → trim (trim s) ≡ trim s
unfolding trim
trim-trim s =
    let t = reverse (trim_start (reverse (trim_start s))) in
    let start : trim_start t ≡ t =
      trim_start-bare t (is_bare-trim_end (trim_start s) (is_bare-trim_start s)) in
    let back : reverse t ≡ trim_start (reverse (trim_start s)) = reverse-reverse _ in
    let finish : trim_start (reverse t) ≡ reverse t =
      rw back (trim_start-bare _ (is_bare-trim_start _)) in
    rw start (ap reverse finish ∙ reverse-reverse t)
