-- ===== src/Routes/Administer/Laws.antt =====
-- What a request to send one pass by mail does, and what a request to invalidate one does.
use save_the_date.Base.{
  ℕ, ◌≡◌, true, Option, none, some, List, [], ◌∷◌, ◌++◌, All, codes, trim, or_else, or_text, false,
  if◌then◌else◌, Text, map, ◌==◌, Outcome, returned, thrown,
}
use save_the_date.Auth.Session.{AuthSession}
use save_the_date.HallPasses.Model.{HallPass, sent, failed, Db}
use save_the_date.Mail.Address.{is_likely_email}
use save_the_date.Mail.Batches.{Provider, send_pass_pdf_email}
use save_the_date.Routes.Guard.{
  Fence, row, RouteError, Response, unauthorized, frozen, pass_not_found, bad_request, delivered,
  delivery_failed,
}
use save_the_date.Routes.Guard.Laws.{is_admin}
use save_the_date.Routes.Administer.{EmailBody}

abbrev map? : (HallPass → HallPass) → Option HallPass → Option HallPass
map? f none = none
map? f (some p) = some (f p)

-- The pass is the first with the id.
abbrev pub IsFirst : ℕ → List HallPass → HallPass → Type 0
IsFirst id ps p =
    (others : List HallPass) × (rest : List HallPass) × (ps ≡ others ++ p ∷ rest)
    × (p.id ≡ id)
    × All (λ q. (q.id == id) ≡ false) others

abbrev Found : ℕ → List HallPass → Option HallPass → Type 0
Found id ps none = All (λ q. (q.id == id) ≡ false) ps
Found id ps (some p) = IsFirst id ps p

abbrev trimmed_or_empty : Option Text → Text
trimmed_or_empty none = []
trimmed_or_empty (some s) = trim s

-- The address of the request, or else the one on the pass
abbrev pub address_of : Option EmailBody → HallPass → Text
address_of none p = or_else p.email_recipient []
address_of (some b) p = or_text (trimmed_or_empty b.recipient_email) (or_else p.email_recipient [])

abbrev usual_text : Text
usual_text = codes "Please find the attached hall pass ticket PDF. Present the QR code at entry."

abbrev pub text_of : Option EmailBody → Text
text_of none = usual_text
text_of (some b) = or_text (trimmed_or_empty b.message) usual_text

-- The pass as sent to the address, and as not sent for an error
abbrev pub as_sent : Text → ℕ → HallPass → HallPass
as_sent address now p = record p {
  email_recipient = some address;
  email_status = sent;
  email_sent_at = some now;
  email_error = none;
}

abbrev pub as_unsent : Text → Text → HallPass → HallPass
as_unsent address e p = record p {
  email_recipient = some address;
  email_status = failed;
  email_error = some e;
}

-- The tables with the passes of the id changed, and all else as it was
abbrev pub with_pass : ℕ → (HallPass → HallPass) → Db → Db
with_pass id f db = record db { passes = map (λ q. if q.id == id then f q else q) db.passes }

module _ (provider : Provider) (now : ℕ) where
  -- How a request to send a pass can end, and what it has done by then.
  abbrev pub Emailed :
      Fence
      → Option AuthSession
      → ℕ
      → Option EmailBody
      → Db
      → Outcome RouteError Response × Db
      → Type 0
  Emailed fence session id body db (returned unauthorized, db') =
      (is_admin session ≡ false) × (db' ≡ db)
  Emailed fence session id body db (returned frozen, db') = (fence ≡ row true) × (db' ≡ db)
  Emailed fence session id body db (returned pass_not_found, db') =
      All (λ q. (q.id == id) ≡ false) db.passes × (db' ≡ db)
  Emailed fence session id body db (returned (bad_request m), db') =
      (p : HallPass) × IsFirst id db.passes p
      × (is_likely_email (address_of body p) ≡ false)
      × (db' ≡ db)
  Emailed fence session id body db (returned (delivered answer), db') =
      (p : HallPass) × IsFirst id db.passes p
      × (is_likely_email (address_of body p) ≡ true)
      × (send_pass_pdf_email provider (p ∷ []) (address_of body p) (text_of body) none
          ≡ returned tt)
      × (answer ≡ some (as_sent (address_of body p) now p))
      × (db' ≡ with_pass id (as_sent (address_of body p) now) db)
  Emailed fence session id body db (returned (delivery_failed e answer), db') =
      (p : HallPass) × IsFirst id db.passes p
      × (is_likely_email (address_of body p) ≡ true)
      × (send_pass_pdf_email provider (p ∷ []) (address_of body p) (text_of body) none ≡ thrown e)
      × (answer ≡ some (as_unsent (address_of body p) e p))
      × (db' ≡ with_pass id (as_unsent (address_of body p) e) db)
  Emailed fence session id body db _ = ⊥
