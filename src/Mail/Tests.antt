-- ===== src/Mail/Tests.antt =====
-- Mail at concrete texts and passes.
use save_the_date.Base.{
  Bool, Text, ◌++◌, ◌≢◌, ltb, ℕ, ◌≡◌, ◌↔◌, true, false, none, [], ◌∷◌, arith, codes, length, All,
  trim, returned,
}
use save_the_date.HallPasses.Tests.{open_pass, used_pass, void_pass}
use save_the_date.Mail.Address.{is_likely_email}
use save_the_date.Mail.Address.Laws.{IsAddress, is_likely_email_iff}
use save_the_date.Mail.Escape.{escape_html}
use save_the_date.Mail.Escape.Laws.{entities, escape_html-entities}
use save_the_date.Mail.Pdf.{get_pass_pdf_file_name, shown, final_text}
use save_the_date.Mail.Pdf.Laws.{
  IsNamePart, IsFitted, get_pass_pdf_file_name-IsNamePart, final_text-IsFitted,
}
use save_the_date.Mail.Message.{pad_start, to_string}
use save_the_date.Mail.Batches.{Provider, send_pass_pdf_emails_batched}
use save_the_date.Mail.Batches.Laws.{times, named, send_pass_pdf_emails_batched-named}

-- A provider that refuses every mail.
abbrev pub provider : Provider
provider = record {
  is_configured = true;
  post = λ m. record { is_ok = false; status = 503; success = none; message = none };
  render = λ p. returned (record { file_name = p.token; content = [] });
}

is_likely_email_iff_example :
    (is_likely_email (codes " a@b.c ") ≡ true) ↔ IsAddress (trim (codes " a@b.c "))
is_likely_email_iff_example = is_likely_email_iff (codes " a@b.c ")

escape_html-entities_example : escape_html (codes "<b>&") ≡ entities (codes "<b>&")
escape_html-entities_example = escape_html-entities (codes "<b>&")

send_pass_pdf_emails_batched-named_example :
    named 12 (
      send_pass_pdf_emails_batched provider
        (codes "a@b.c")
        []
        2
        (open_pass ∷ used_pass ∷ void_pass ∷ []))
    ≡ times 12 (11 ∷ 12 ∷ 13 ∷ [])
send_pass_pdf_emails_batched-named_example =
    send_pass_pdf_emails_batched-named provider (codes "a@b.c") [] 12 2
      (open_pass ∷ used_pass ∷ void_pass ∷ []) (omega arith)

abbrev lower : Text → Text
lower s = s

get_pass_pdf_file_name-IsNamePart_example :
    (name : Text) × (get_pass_pdf_file_name lower open_pass
      ≡ codes "hall-pass-ticket-"
        ++ (pad_start 3 (to_string 1) ++ (codes "-" ++ (name ++ codes ".pdf"))))
    × (name ≢ [])
    × All IsNamePart name
get_pass_pdf_file_name-IsNamePart_example = get_pass_pdf_file_name-IsNamePart lower open_pass

-- Nine characters are too wide here.
abbrev too_wide : Text → Bool
too_wide s = ltb 8 (length s)

final_text-IsFitted_example :
    (n : ℕ) × (final_text too_wide (codes "Adeola and Joshua")
      ≡ shown (codes "Adeola and Joshua") n)
    × IsFitted too_wide (codes "Adeola and Joshua") n 17
final_text-IsFitted_example = final_text-IsFitted too_wide (codes "Adeola and Joshua")
