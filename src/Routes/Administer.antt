-- ===== src/Routes/Administer.antt =====
-- What an administrator does to passes that are issued, and to the limit:
-- apps/web/app/api/passes/[id]/invalidate/route.ts,
-- apps/web/app/api/passes/invalidate-all/route.ts, apps/web/app/api/passes/[id]/email/route.ts and
-- apps/web/app/api/ticket-settings/route.ts. Bodies have the types that the handlers give them.
pub mod Laws
use save_the_date.Base.{
  ℕ, Bool, not, Option, none, some, List, [], ◌∷◌, Text, codes, or_text, or_else, trim, head?,
  length, if◌then◌else◌, Outcome, returned, thrown, ◌>>◌, pure,
}
use save_the_date.Auth.Session.{super_admin, AuthSession}
use save_the_date.HallPasses.Model.{HallPass, sent, failed}
use save_the_date.HallPasses.Settings.{get_ticket_availability, update_ticket_limit}
use save_the_date.HallPasses.Manage.{
  invalidate_hall_pass, invalidate_all_hall_passes, get_hall_pass_by_id, EmailDelivery,
  update_pass_email_delivery,
}
use save_the_date.Mail.Address.{is_likely_email}
use save_the_date.Mail.Batches.{Provider, send_pass_pdf_email}
use save_the_date.Routes.Guard.{
  Fence, Response, pass_not_found, bad_request, delivery_failed, invalidated, all_invalidated,
  availability, delivered, Handler, guarded, administered,
}

unfoldable pub answer_invalidated : Option HallPass → Handler
answer_invalidated none db = (returned pass_not_found, db)
answer_invalidated (some p) db = (returned (invalidated p (get_ticket_availability db)), db)

module _ (now : ℕ) where
  unfoldable pub invalidate_one : ℕ → AuthSession → Handler
  invalidate_one id session db =
      let (found, db') = invalidate_hall_pass id session now db in answer_invalidated found db'

  -- `POST` of passes/[id]/invalidate
  unfoldable pub post_invalidate : Fence → Option AuthSession → ℕ → Handler
  post_invalidate fence session id = administered fence session (invalidate_one id)

  pub invalidate_each : AuthSession → Handler
  invalidate_each session db =
      let (passes, db') = invalidate_all_hall_passes session now db in
      (returned (all_invalidated (length passes) passes (get_ticket_availability db')), db')

  -- `POST` of passes/invalidate-all
  unfoldable pub post_invalidate_all : Fence → Option AuthSession → Handler
  post_invalidate_all fence session = administered fence session invalidate_each

-- `ticketLimit` of a body: missing or null, a natural number, or anything else.
pub data RawLimit : Type 0 where
  missing other : RawLimit
  natural : ℕ → RawLimit

-- `GET` of ticket-settings
unfoldable pub get_settings : Option AuthSession → Handler
get_settings session =
    guarded session (super_admin ∷ [])
      λ s db. (returned (availability (get_ticket_availability db)), db)

module _ (now : ℕ) where
  set_limit_to : Option ℕ → AuthSession → Handler
  set_limit_to limit session db =
      let (a, db') = update_ticket_limit limit session now db in (returned (availability a), db')

  pub change_limit : RawLimit → AuthSession → Handler
  change_limit missing session = set_limit_to none session
  change_limit (natural n) session = set_limit_to (some n) session
  change_limit other session =
      pure (bad_request (codes "Ticket limit must be a non-negative integer."))

  -- `PUT` of ticket-settings
  unfoldable pub put_settings : Fence → Option AuthSession → RawLimit → Handler
  put_settings fence session raw = administered fence session (change_limit raw)

pub record EmailBody : Type 0 where
  pub recipient_email : Option Text
  pub message : Option Text

trimmed : Option Text → Text
trimmed none = []
trimmed (some s) = trim s

-- `body?.recipientEmail?.trim() || pass.email_recipient || ""`
pub recipient_of : Option EmailBody → HallPass → Text
recipient_of none p = or_else p.email_recipient []
recipient_of (some b) p = or_text (trimmed b.recipient_email) (or_else p.email_recipient [])

pub message_of : Option EmailBody → Text
message_of none =
    codes "Please find the attached hall pass ticket PDF. Present the QR code at entry."
message_of (some b) =
    or_text (trimmed b.message)
      (codes "Please find the attached hall pass ticket PDF. Present the QR code at entry.")

module _ (provider : Provider) (now : ℕ) where
  -- What follows the attempt to send: the outcome is recorded on the pass.
  record_attempt : HallPass → Text → Outcome Text (Unit {0}) → Handler
  record_attempt p recipient (returned u) db =
      let (rows, db') =
        update_pass_email_delivery (p.id ∷ [])
          (record { recipient = recipient; status = sent; error = none }) now db in
      (returned (delivered (head? rows)), db')
  record_attempt p recipient (thrown e) db =
      let (rows, db') =
        update_pass_email_delivery (p.id ∷ [])
          (record { recipient = recipient; status = failed; error = some e }) now db in
      (returned (delivery_failed e (head? rows)), db')

  send_to : HallPass → Text → Text → Handler
  send_to p recipient message =
      if not (is_likely_email recipient)
      then pure (bad_request (codes "Enter a valid recipient email address."))
      else record_attempt p recipient (send_pass_pdf_email provider (p ∷ []) recipient message none)

  email_found : Option EmailBody → Option HallPass → Handler
  email_found body none = pure pass_not_found
  email_found body (some p) = send_to p (recipient_of body p) (message_of body)

  pub email_pass : ℕ → Option EmailBody → AuthSession → Handler
  email_pass id body session db = email_found body (get_hall_pass_by_id id db) db

  -- `POST` of passes/[id]/email
  unfoldable pub post_email : Fence → Option AuthSession → ℕ → Option EmailBody → Handler
  post_email fence session id body = administered fence session (email_pass id body)
