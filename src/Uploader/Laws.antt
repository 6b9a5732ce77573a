-- ===== src/Uploader/Laws.antt =====
-- What is sent of a picture, and how the queue is worked off.
use save_the_date.Base.{
  ℕ, ◌+◌, ◌*◌, ◌/◌, ◌≤◌, ◌<◌, ◌≡◌, sym, ap, ◌∙◌, Bool, true, Option, none, some, List, [], ◌∷◌,
  Text, find?, leb, Bool-cases, inl, inr, if◌then◌else◌, Outcome, returned, thrown, arith,
}
use native.Mathlib.Nat.{div-lt_iff_lt-mul}
use save_the_date.Uploader.Images.{
  File, Canvas, Browser, max_dimension, max_output_bytes, lower_qualities, larger, scaled, fitted,
  too_large, canvas_to_blob, lower_quality, checked_size, draw, optimize_image,
}

scaled_bounds :
    (largest side : ℕ) → side ≤ largest → (1 ≤ scaled largest side) × (scaled largest side ≤ 3200)
unfolding scaled
scaled_bounds largest side h = elim (Bool-cases (leb largest max_dimension)) [
  | inl small ↦ rw small (ground (arith, small))
  | inr big ↦
      let positive : 0 < 2 * largest = ground (arith, big) in
      let below : (2 * side * max_dimension + largest) / (2 * largest) < 3201 =
        (div-lt_iff_lt-mul positive).1 (omega arith) in
      rw big (ground (arith, below))
]

-- A copy has at least one pixel and at most 3200 on each side.
fitted_bounds :
    (bitmap : Canvas)
    → (1 ≤ (fitted bitmap).width)
      × ((fitted bitmap).width ≤ 3200)
      × (1 ≤ (fitted bitmap).height)
      × ((fitted bitmap).height ≤ 3200)
unfolding fitted
fitted_bounds bitmap =
    let largest = larger bitmap.width bitmap.height in
    let (a, b) = scaled_bounds largest bitmap.width (ground arith) in
    let (c, d) = scaled_bounds largest bitmap.height (ground arith) in (a, b, c, d)

abbrev pub qualities : List ℕ
qualities = 90 ∷ lower_qualities

abbrev pub fits : (ℕ → ℕ) → ℕ → Bool
fits size q = leb (size q) max_output_bytes

abbrev pub fitting : (ℕ → ℕ) → Option ℕ → Outcome Text ℕ
fitting size none = thrown too_large
fitting size (some q) = returned (size q)

-- The first size in a list that is small enough
abbrev pub first_fit : (ℕ → ℕ) → List ℕ → Outcome Text ℕ
first_fit size qs = fitting size (find? (fits size) qs)

canvas_to_blob_lem :
    (browser : Browser) (file : File) (canvas : Canvas) (q n : ℕ)
    → browser.encode file canvas q ≡ some n
    → canvas_to_blob browser file canvas q ≡ returned n
unfolding canvas_to_blob
canvas_to_blob_lem browser file canvas q n e = ground (arith, e)

draw_lem :
    (browser : Browser) (file : File) (bitmap : Canvas)
    → browser.decode file ≡ returned bitmap
    → browser.has_context ≡ true
    → optimize_image browser file
      ≡ checked_size (
          lower_quality browser file
            (fitted bitmap)
            lower_qualities
            (canvas_to_blob browser file (fitted bitmap) 90))
unfolding optimize_image draw
draw_lem browser file bitmap reads has_context = ground (arith, reads, has_context)

lower_quality-first_fit :
    (browser : Browser) (file : File) (canvas : Canvas) (size : ℕ → ℕ)
    → ((q : ℕ) → browser.encode file canvas q ≡ some (size q))
    → (q : ℕ) (qs : List ℕ)
    → checked_size (lower_quality browser file canvas qs (returned (size q)))
      ≡ first_fit size (q ∷ qs)
unfolding checked_size lower_quality
lower_quality-first_fit browser file canvas size encodes q [] = ground arith
lower_quality-first_fit browser file canvas size encodes q (r ∷ qs) =
    elim (Bool-cases (leb (size q) max_output_bytes)) [
      | inl small ↦ rw small (ground (arith, small))
      | inr big ↦
          let next = lower_quality browser file canvas qs (canvas_to_blob browser file canvas r) in
          ap (λ (b : Bool). checked_size (if b then returned (size q) else next)) big
          ∙ ap (λ r. checked_size (lower_quality browser file canvas qs r))
              (canvas_to_blob_lem browser file canvas r (size r) (encodes r))
          ∙ lower_quality-first_fit browser file canvas size encodes r qs
          ∙ ap (λ (b : Bool). fitting size (if b then some q else find? (fits size) (r ∷ qs)))
              (sym big)
    ]

-- Where the picture is read, the canvas has a context and encodes at every quality, the copy is the
-- one at the first of the qualities 90, 85, 80 and 75 that has at most 18 MB, and an error where none
-- has; it is drawn with 1 to 3200 pixels on either side.
pub optimize_image-first_fit :
    (browser : Browser) (file : File) (bitmap : Canvas) (size : ℕ → ℕ)
    → browser.decode file ≡ returned bitmap
    → browser.has_context ≡ true
    → ((q : ℕ) → browser.encode file (fitted bitmap) q ≡ some (size q))
    → (optimize_image browser file ≡ first_fit size qualities)
      × (1 ≤ (fitted bitmap).width)
      × ((fitted bitmap).width ≤ 3200)
      × (1 ≤ (fitted bitmap).height)
      × ((fitted bitmap).height ≤ 3200)
optimize_image-first_fit browser file bitmap size reads has_context encodes =
    let (a, b, c, d) = fitted_bounds bitmap in
    (
      draw_lem browser file bitmap reads has_context
          ∙ ap (λ r. checked_size (lower_quality browser file (fitted bitmap) lower_qualities r))
              (canvas_to_blob_lem browser file (fitted bitmap) 90 (size 90) (encodes 90))
          ∙ lower_quality-first_fit browser file (fitted bitmap) size encodes 90 lower_qualities,
      a,
      b,
      c,
      d,
    )
