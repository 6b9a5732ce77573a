-- ===== src/Routes/Issue/Ends.antt =====
-- How a request to issue passes can end: the statement that is proved of it.
use save_the_date.Base.{
  true, Bool, ◌↔◌, All, map, ℕ, ◌+◌, ◌≡◌, refl, ◌≤◌, ◌<◌, false, Option, none, some, List, [], Text,
  length, count, trim, Outcome, returned, thrown, ◌⊎◌,
}
use save_the_date.Auth.Session.{AuthSession}
use save_the_date.HallPasses.Model.{HallPass, Db, is_active}
use save_the_date.HallPasses.Create.{Draw, configured_limit}
use save_the_date.HallPasses.Create.Limit.{Within, Exceeded}
use save_the_date.HallPasses.Create.Batch.{Named}
use save_the_date.Mail.Batches.{
  pass_email_batch_size, Provider, BatchResult, send_pass_pdf_emails_batched,
}
use save_the_date.Routes.Guard.{
  EmailReport, Fence, row, RouteError, create_failed, Response, unauthorized, frozen, bad_request,
  limit_reached, issued,
}
use save_the_date.Routes.Guard.Laws.{is_admin}
use save_the_date.Routes.Issue.Mailing.{Recorded}
use save_the_date.Routes.Issue.{
  Delivery, CreateBody, wanted_of, guest_names_of, refusal, max_batch_size, trimmed,
}

-- What the request asks of the mail: whether, to whom and with what message
abbrev pub asks_mail : Option Delivery → Bool
asks_mail none = false
asks_mail (some d) = d.send_email

abbrev pub trimmed_or_empty : Option Text → Text
trimmed_or_empty none = []
trimmed_or_empty (some s) = trim s

abbrev pub address_of : Option Delivery → Text
address_of none = []
address_of (some d) = trimmed_or_empty d.recipient_email

abbrev pub text_of : Option Delivery → Text
text_of none = []
text_of (some d) = trimmed_or_empty d.message

pub trimmed-eq : (o : Option Text) → trimmed o ≡ trimmed_or_empty o
unfolding trimmed
trimmed-eq none = refl
trimmed-eq (some s) = refl

pub wanted_of-eq :
    (d : Option Delivery)
    → wanted_of d
      ≡ record { send_email = asks_mail d; recipient = address_of d; message = text_of d }
unfolding wanted_of
wanted_of-eq none = refl
wanted_of-eq (some d) = rw (trimmed-eq d.recipient_email, trimmed-eq d.message) refl

module _ (provider : Provider) (upper : Text → Text) (draws : ℕ → Draw) (now : ℕ) where
  -- What the answer and the rows say of the mail, where it was asked for, and that the answer says
  -- nothing of it where it was not
  abbrev pub Mailed : Bool → Text → BatchResult → Option EmailReport → Db → Type 0
  Mailed false recipient r e db = e ≡ none
  Mailed true recipient r e db =
      (report : EmailReport) × (e ≡ some report)
      × (report.recipient_email ≡ recipient)
      × ((report.success ≡ true) ↔ (r.failed_pass_ids ≡ []))
      × All (Recorded recipient now r) db.passes

  -- The passes that were made, with their guests' names, are those of the answer, and were sent.
  abbrev pub Sends :
      Option AuthSession → CreateBody → List HallPass → Option EmailReport → Db → Type 0
  Sends session b ps e db =
      (s : AuthSession) × (made : List HallPass) × (session ≡ some s)
      × Named upper now (some (trimmed_or_empty b.invite_from)) s (map trim (guest_names_of b)) made
      × (map (λ (q : HallPass). q.id) ps ≡ map (λ (q : HallPass). q.id) made)
      × Mailed (asks_mail b.delivery) (address_of b.delivery)
          (send_pass_pdf_emails_batched provider (address_of b.delivery) (text_of b.delivery)
            pass_email_batch_size made)
          e db

  -- How a request to issue passes can end, and what it has done by then.
  abbrev pub Issued :
      Fence
      → Option AuthSession
      → Option CreateBody
      → Db
      → Outcome RouteError Response × Db
      → Type 0
  Issued fence session body db (returned unauthorized, db') =
      (is_admin session ≡ false) × (db' ≡ db)
  Issued fence session body db (returned frozen, db') = (fence ≡ row true) × (db' ≡ db)
  Issued fence session body db (returned (bad_request m), db') =
      ((body ≡ none)
        ⊎ ((b : CreateBody) × (body ≡ some b)
            × (refusal (wanted_of b.delivery) (trimmed b.invite_from) (guest_names_of b) ≡ some m)))
      × (db' ≡ db)
  Issued fence session body db (returned (limit_reached m a), db') =
      (b : CreateBody) × (body ≡ some b)
      × Exceeded (configured_limit db) (length (guest_names_of b) + count is_active db.passes)
      × (db' ≡ db)
  Issued fence session body db (returned (issued ps a e), db') =
      (b : CreateBody) × (body ≡ some b)
      × (0 < length (guest_names_of b))
      × (length (guest_names_of b) ≤ max_batch_size)
      × (length ps ≡ length (guest_names_of b))
      × (count is_active db'.passes ≡ length (guest_names_of b) + count is_active db.passes)
      × Within (configured_limit db) (count is_active db'.passes)
      × Sends session b ps e db'
  Issued fence session body db (thrown (create_failed e), db') = db'.passes ≡ db.passes
  Issued fence session body db _ = ⊥
