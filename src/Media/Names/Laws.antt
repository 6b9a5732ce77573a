-- ===== src/Media/Names/Laws.antt =====
-- What a sanitised name of a video is made of.
use save_the_date.Base.{
  ℕ, ◌≡◌, ◌≢◌, refl, Bool, true, false, not, some, [], ◌∷◌, ◌++◌, filter, arith, Text, codes, All,
  Bool-cases, inl, inr,
}
use mathlib.Core.List.{reverse, reverse_aux}
use save_the_date.Media.Names.{
  is_combining, drop_extension, runs_after, replace_runs, drop_hyphens, strip_hyphens, is_hyphen,
  is_lower, is_upper, is_digit, is_plain_name, plain_name, basename, sanitize_video_filename,
}

-- Letters, digits, `_` and `-`, and nothing else
abbrev pub IsPlainName : Text → Type 0
IsPlainName s = All (λ c. is_plain_name c ≡ true) s

hyphen-plain : is_plain_name b'-' ≡ true
unfolding is_plain_name is_lower is_upper is_digit
hyphen-plain = refl

-- What a run becomes, and what stands outside of the class, is all that is left.
runs_after-All :
    (P : ℕ → Type 0) (class : ℕ → Bool) (by : ℕ)
    → P by
    → ((c : ℕ) → class c ≡ false → P c)
    → (within : Bool) (s : Text) → All P (runs_after class by within s)
unfolding runs_after
runs_after-All P class by b out within [] = tt
runs_after-All P class by b out true (c ∷ s) = elim (Bool-cases (class c)) [
  | inl e ↦ rw e (runs_after-All P class by b out true s)
  | inr e ↦ rw e (out c e, runs_after-All P class by b out false s)
]
runs_after-All P class by b out false (c ∷ s) = elim (Bool-cases (class c)) [
  | inl e ↦ rw e (b, runs_after-All P class by b out true s)
  | inr e ↦ rw e (out c e, runs_after-All P class by b out false s)
]

pub replace_runs-All :
    (P : ℕ → Type 0) (class : ℕ → Bool) (by : ℕ) (s : Text)
    → P by
    → ((c : ℕ) → class c ≡ false → P c)
    → All P (replace_runs class by s)
unfolding replace_runs
replace_runs-All P class by s b out = runs_after-All P class by b out false s

runs-IsPlain : (s : Text) → IsPlainName (runs_after (λ c. not (is_plain_name c)) b'-' false s)
runs-IsPlain =
    runs_after-All (λ c. is_plain_name c ≡ true) (λ c. not (is_plain_name c)) b'-' hyphen-plain
      (λ c e. ground arith) false

hyphens-IsPlain :
    (within : Bool) (s : Text) → IsPlainName s → IsPlainName (runs_after is_hyphen b'-' within s)
unfolding runs_after
hyphens-IsPlain within [] h = tt
hyphens-IsPlain true (c ∷ s) h = elim (Bool-cases (is_hyphen c)) [
  | inl e ↦ rw e (hyphens-IsPlain true s h.1)
  | inr e ↦ rw e (h.0, hyphens-IsPlain false s h.1)
]
hyphens-IsPlain false (c ∷ s) h = elim (Bool-cases (is_hyphen c)) [
  | inl e ↦ rw e (hyphen-plain, hyphens-IsPlain true s h.1)
  | inr e ↦ rw e (h.0, hyphens-IsPlain false s h.1)
]

reverse_aux-All : (s t : Text) → IsPlainName s → IsPlainName t → IsPlainName (reverse_aux s t)
reverse_aux-All [] t h k = k
reverse_aux-All (c ∷ s) t h k = reverse_aux-All s (c ∷ t) h.1 (h.0, k)

drop-IsPlain : (s : Text) → IsPlainName s → IsPlainName (drop_hyphens s)
unfolding drop_hyphens
drop-IsPlain [] h = tt
drop-IsPlain (c ∷ s) h = elim (Bool-cases (is_hyphen c)) [
  | inl e ↦ rw e (drop-IsPlain s h.1)
  | inr e ↦ rw e h
]

strip-IsPlain : (s : Text) → IsPlainName s → IsPlainName (strip_hyphens s)
unfolding strip_hyphens
strip-IsPlain s h =
    reverse_aux-All (drop_hyphens (reverse (drop_hyphens s))) []
      (drop-IsPlain _ (reverse_aux-All (drop_hyphens s) [] (drop-IsPlain s h) tt)) tt

plain_name-IsPlain :
    (lower nfkd : Text → Text) (filename : Text) → IsPlainName (plain_name lower nfkd filename)
unfolding plain_name replace_runs
plain_name-IsPlain lower nfkd filename =
    let kept = filter (λ c. not (is_combining c)) (nfkd (drop_extension filename)) in
    let runs = runs_after (λ c. not (is_plain_name c)) b'-' false kept in
    hyphens-IsPlain false (strip_hyphens runs) (strip-IsPlain runs (runs-IsPlain kept))

-- Where lower case keeps letters, digits, `_` and `-` among these, a sanitised name is `.mp4` after
-- a name of one or more of these, so that it has no slash and no other dot.
pub sanitize_video_filename-IsPlainName :
    (lower nfkd : Text → Text) (filename name : Text)
    → ((s : Text) → IsPlainName s → IsPlainName (lower s))
    → sanitize_video_filename lower nfkd filename ≡ some name
    → (base : Text) × (name ≡ base ++ codes ".mp4") × (base ≢ []) × IsPlainName base
unfolding sanitize_video_filename basename
sanitize_video_filename-IsPlainName lower nfkd filename name keep h = (
  basename lower nfkd filename,
  ground (arith),
  ground (arith),
  keep (plain_name lower nfkd filename) (plain_name-IsPlain lower nfkd filename),
)
