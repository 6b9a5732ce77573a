-- ===== src/Mail/Pdf/Laws.antt =====
-- The name of a file has no separator in it, and a text is shortened no further than it must be.
use save_the_date.Base.{
  ℕ, zero, suc, ◌≤◌, ◌<◌, ◌≡◌, ◌≢◌, refl, ◌⊎◌, Bool, true, false, ◌||◌, ◌&&◌, [], ◌∷◌, ◌++◌, arith,
  Text, codes, length, ltb, or_else, or_text, All, not, ◌==◌, Bool-cases, inl, inr,
}
use mathlib.Core.List.{reverse, reverse_aux}
use save_the_date.HallPasses.Model.{HallPass}
use save_the_date.Mail.Message.{to_string, pad_start}
use save_the_date.Media.Names.{replace_runs, is_lower, is_digit}
use save_the_date.Media.Names.Laws.{replace_runs-All}
use save_the_date.Mail.Pdf.{
  is_name_letter, drop_hyphen, trim_hyphen, safe_name, get_pass_pdf_file_name, shown, fitted_length,
  final_text,
}

-- A letter, a digit or a hyphen
abbrev pub IsNamePart : ℕ → Type 0
IsNamePart c = (is_name_letter c || c == b'-') ≡ true

reverse-NamePart :
    (s t : Text) → All IsNamePart s → All IsNamePart t → All IsNamePart (reverse_aux s t)
reverse-NamePart [] t h k = k
reverse-NamePart (c ∷ s) t h k = reverse-NamePart s (c ∷ t) h.1 (h.0, k)

drop-NamePart : (s : Text) → All IsNamePart s → All IsNamePart (drop_hyphen s)
unfolding drop_hyphen
drop-NamePart [] h = tt
drop-NamePart (c ∷ s) h = elim (Bool-cases (c == b'-')) [ inl e ↦ rw e h.1 | inr e ↦ rw e h ]

trim-NamePart : (s : Text) → All IsNamePart s → All IsNamePart (trim_hyphen s)
unfolding trim_hyphen
trim-NamePart s h =
    reverse-NamePart (drop_hyphen (reverse (drop_hyphen s))) []
      (drop-NamePart (reverse (drop_hyphen s))
        (reverse-NamePart (drop_hyphen s) [] (drop-NamePart s h) tt))
      tt

safe_name-NamePart : (lower : Text → Text) (p : HallPass) → All IsNamePart (safe_name lower p)
unfolding safe_name
safe_name-NamePart lower p =
    let name = lower (or_else p.guest_name (codes "guest")) in
    trim-NamePart (replace_runs (λ c. not (is_name_letter c)) b'-' name) (
      replace_runs-All IsNamePart (λ c. not (is_name_letter c)) b'-' name (ground arith)
        (λ c e. ground arith))

guest-NamePart : All IsNamePart (codes "guest")
unfolding is_name_letter is_lower is_digit
guest-NamePart = (refl, (refl, (refl, (refl, (refl, tt)))))

or_guest :
    (s : Text)
    → All IsNamePart s
    → (or_text s (codes "guest") ≢ []) × All IsNamePart (or_text s (codes "guest"))
or_guest [] h = (cc, guest-NamePart)
or_guest (c ∷ s) h = (cc, h)

-- The name of the file of a pass is made of its ticket number and of a part that is not empty and
-- holds letters, digits and hyphens only, whatever the guest's name and `toLowerCase` are.
pub get_pass_pdf_file_name-IsNamePart :
    (lower : Text → Text) (p : HallPass)
    → (name : Text) × (get_pass_pdf_file_name lower p
        ≡ codes "hall-pass-ticket-"
          ++ (pad_start 3 (to_string p.ticket_number) ++ (codes "-" ++ (name ++ codes ".pdf"))))
      × (name ≢ [])
      × All IsNamePart name
unfolding get_pass_pdf_file_name
get_pass_pdf_file_name-IsNamePart lower p =
    let (given, parts) = or_guest (safe_name lower p) (safe_name-NamePart lower p) in
    (or_text (safe_name lower p) (codes "guest"), refl, given, parts)

second_false : (a b : Bool) → a ≡ true → (a && b) ≡ false → b ≡ false
second_false true b h k = k
second_false false b h k = cc

module _ (too_wide : Text → Bool) (text : Text) where
  -- How a text is shortened to this length, from that one on
  pub record IsFitted (n start : ℕ) : Type 0 where
    pub no_longer : n ≤ start
    pub fits : (n ≤ 3) ⊎ (too_wide (shown text n) ≡ false)
    pub no_shorter : (m : ℕ) → n < m → m ≤ start → too_wide (shown text m) ≡ true

  fitted_length-IsFitted : (start : ℕ) → IsFitted (fitted_length too_wide text start) start
  unfolding fitted_length
  fitted_length-IsFitted zero = record {
    no_longer = omega arith;
    fits = inl (omega arith);
    no_shorter = λ m h le. absurd (omega arith);
  }
  fitted_length-IsFitted (suc n) =
      elim (Bool-cases (ltb 3 (suc n) && too_wide (shown text (suc n)))) [
        | inl e ↦ rw e (
            let f = fitted_length-IsFitted n in
            record {
              no_longer = omega (arith, f.no_longer);
              fits = f.fits;
              no_shorter = λ m h le. elim (Bool-cases (m == suc n)) [
                | inl k ↦ let i : m ≡ suc n = ground arith in rw i (ground arith)
                | inr k ↦ f.no_shorter m h (ground arith)
              ];
            })
        | inr e ↦ rw e (record {
          no_longer = omega arith;
          fits = elim (Bool-cases (ltb 3 (suc n))) [
            | inl k ↦ inr (second_false (ltb 3 (suc n)) (too_wide (shown text (suc n))) k e)
            | inr k ↦ inl (ground arith)
          ];
          no_shorter = λ m h le. absurd (omega arith);
        })
      ]

  -- The text that is drawn is the whole text or a part of it with dots. It fits, unless three
  -- characters or fewer are left, and no longer part of the text would have fitted.
  pub final_text-IsFitted :
      (n : ℕ) × (final_text too_wide text ≡ shown text n) × IsFitted n (length text)
  unfolding final_text
  final_text-IsFitted =
      (fitted_length too_wide text (length text), refl, fitted_length-IsFitted (length text))
