-- ===== src/Mail/Pdf.antt =====
-- The name of a pass's PDF, and the text that its drawing shortens: `getPassPdfFileName` and the
-- loop of `drawCentered` in apps/web/src/lib/passPdf.ts. `lower` is `toLowerCase`, and `too_wide`
-- is whether the font sets a text wider than the room for it.
pub mod Laws
use save_the_date.Base.{
  ℕ, zero, suc, Bool, not, ◌&&◌, ◌||◌, List, [], ◌∷◌, ◌++◌, Text, codes, or_text, or_else, length,
  take, ltb, ◌==◌, if◌then◌else◌,
}
use mathlib.Core.List.{reverse}
use save_the_date.HallPasses.Model.{HallPass}
use save_the_date.Mail.Message.{to_string, pad_start}
use save_the_date.Media.Names.{is_lower, is_digit, replace_runs}

-- `[a-z0-9]`
pub is_name_letter : ℕ → Bool
is_name_letter c = is_lower c || is_digit c

drop_hyphen : Text → Text
drop_hyphen [] = []
drop_hyphen (c ∷ s) = if c == b'-' then s else c ∷ s

-- `.replace(/(^-|-$)/g, "")`
trim_hyphen : Text → Text
trim_hyphen s = reverse (drop_hyphen (reverse (drop_hyphen s)))

-- `safeName`
pub safe_name : (Text → Text) → HallPass → Text
safe_name lower p =
    trim_hyphen (
      replace_runs (λ c. not (is_name_letter c)) b'-'
        (lower (or_else p.guest_name (codes "guest"))))

-- `getPassPdfFileName(pass)`
pub get_pass_pdf_file_name : (Text → Text) → HallPass → Text
get_pass_pdf_file_name lower p =
    codes "hall-pass-ticket-"
    ++ (pad_start 3 (to_string p.ticket_number)
        ++ (codes "-" ++ (or_text (safe_name lower p) (codes "guest") ++ codes ".pdf")))

-- The text that is drawn when `displayText` has this many characters of it.
pub shown : Text → ℕ → Text
shown text n = if n == length text then text else take n text ++ codes "..."

-- The `while` loop, from this length of `displayText` on
pub fitted_length : (Text → Bool) → Text → ℕ → ℕ
fitted_length too_wide text zero = zero
fitted_length too_wide text (suc n) =
    let shorter = fitted_length too_wide text n in
    if ltb 3 (suc n) && too_wide (shown text (suc n)) then shorter else suc n

-- `finalText`
pub final_text : (Text → Bool) → Text → Text
final_text too_wide text = shown text (fitted_length too_wide text (length text))
