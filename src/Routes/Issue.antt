-- ===== src/Routes/Issue.antt =====
-- Issuing passes and listing them: apps/web/app/api/passes/route.ts. The numbers of a query are
-- natural numbers, and a body has the type that the handler gives it; a guest name that is not a
-- string is `none`.
pub mod Ends
pub mod Laws
pub mod Mailing
use save_the_date.Base.{
  ℕ, ◌<◌, Bool, true, false, not, ◌&&◌, Option, none, some, List, [], ◌∷◌, ◌++◌, map, Text, codes,
  same, is_empty, or_else, trim, find?, length, ltb, ◌==◌, if◌then◌else◌, Outcome, returned, thrown,
  Run, ◌>>=◌, ◌>>◌, pure, throw,
}
use mathlib.Core.List.{reverse}
use save_the_date.Auth.Session.{super_admin, AuthSession}
use save_the_date.HallPasses.Model.{HallPass, EmailStatus, sent, failed, Db}
use save_the_date.HallPasses.Create.{Draw, CreateError, create_hall_passes}
use save_the_date.HallPasses.Settings.{get_ticket_availability}
use save_the_date.HallPasses.Manage.{EmailDelivery, update_pass_email_delivery}
use save_the_date.HallPasses.Listing.{
  Tab, active, invalidated, StatusFilter, all, unused, used, ListParams, list_hall_passes,
}
use save_the_date.HallPasses.InviteStats.{get_invite_from_stats}
use save_the_date.Mail.Address.{is_likely_email}
use save_the_date.Mail.Message.{join}
use save_the_date.Mail.Batches.{
  pass_email_batch_size, Provider, BatchResult, send_pass_pdf_emails_batched,
}
use save_the_date.Routes.Guard.{
  Fence, RouteError, create_failed, EmailReport, Response, bad_request, limit_reached, listed,
  issued, Handler, guarded, administered,
}

abbrev pub max_batch_size : ℕ
max_batch_size = 100

-- The search parameters of a list request.
pub record Query : Type 0 where
  pub page : Option ℕ
  pub limit : Option ℕ
  pub tab : Option Text
  pub status : Option Text
  pub search : Option Text

unfoldable pub tab_of : Option Text → Tab
tab_of none = active
tab_of (some s) = if same s (codes "invalidated") then invalidated else active

unfoldable pub status_of : Option Text → StatusFilter
status_of none = all
status_of (some s) =
    if same s (codes "unused") then unused else if same s (codes "used") then used else all

unfoldable pub params_of : Query → ListParams
params_of q = record {
  page = some (or_else q.page 1);
  limit = some (or_else q.limit 50);
  tab = some (tab_of q.tab);
  status = some (status_of q.status);
  search = some (elim q.search [ none ↦ [] | some s ↦ trim s ]);
}

-- `GET`, for PostgreSQL's `ilike`, its order of the rows of this query and that of its texts
unfoldable pub get_passes :
    (Text → Text → Bool)
    → (List HallPass → List HallPass)
    → (Text → Text → Bool)
    → Option AuthSession
    → Query
    → Handler
get_passes ilike order before session q = guarded session (super_admin ∷ []) λ s db. (
  returned (
      listed (list_hall_passes ilike order (params_of q) db) (get_ticket_availability db)
        (get_invite_from_stats before db)),
  db,
)

pub record Delivery : Type 0 where
  pub send_email : Bool
  pub recipient_email : Option Text
  pub message : Option Text

pub record CreateBody : Type 0 where
  pub guest_name : Option Text
  pub guest_names : Option (List (Option Text))
  pub invite_from : Option Text
  pub delivery : Option Delivery

-- `value?.trim() ?? ""`
unfoldable pub trimmed : Option Text → Text
trimmed none = []
trimmed (some s) = trim s

-- `Array.isArray(…) && ….length > 0 ? ….map(…) : [guestName ?? ""]`
unfoldable pub names_or : List Text → Option (List (Option Text)) → List Text
names_or single none = single
names_or single (some []) = single
names_or single (some (n ∷ ns)) = map trimmed (n ∷ ns)

-- `normalizedGuestNames`
unfoldable pub guest_names_of : CreateBody → List Text
guest_names_of body = map trim (names_or (or_else body.guest_name [] ∷ []) body.guest_names)

-- What is asked of the mail: whether, to whom and with what message.
pub record Wanted : Type 0 where
  pub send_email : Bool
  pub recipient : Text
  pub message : Text

unfoldable pub wanted_of : Option Delivery → Wanted
wanted_of none = record { send_email = false; recipient = []; message = [] }
wanted_of (some d) = record {
  send_email = d.send_email;
  recipient = trimmed d.recipient_email;
  message = trimmed d.message;
}

-- The tests of the request before a pass is made, with the answer to the first that fails.
unfoldable pub refusal : Wanted → Text → List Text → Option Text
refusal wanted invite_from names =
    if wanted.send_email && not (is_likely_email wanted.recipient)
    then some (codes "Enter a valid recipient email address.")
    else if is_empty invite_from
    then some (codes "Select who the invite is from.")
    else if length names == 0
    then some (codes "Add at least one guest name.")
    else if ltb max_batch_size (length names)
    then some (codes "You can generate up to 100 passes at once.")
    else none

-- `updatedById.get(id)`: the pass that was set last
pub latest : List HallPass → HallPass → HallPass
latest set p = or_else (find? (λ q. q.id == p.id) (reverse set)) p

joined_errors : List Text → Option Text
joined_errors [] = none
joined_errors (e ∷ es) = some (join (codes " ") (e ∷ es))

-- An error of `createHallPasses` leaves the handler.
create_passes : Outcome CreateError (List HallPass) × Db → Outcome RouteError (List HallPass) × Db
create_passes (returned ps, db) = (returned ps, db)
create_passes (thrown e, db) = (thrown (create_failed e), db)

limit_message : List Text → Text
limit_message names =
    if length names == 1
    then codes "Ticket limit reached."
    else codes "Ticket limit does not have enough remaining passes for this batch."

module _ (provider : Provider) (upper : Text → Text) (draws : ℕ → Draw) (now : ℕ) where
  -- `updatePassEmailDelivery` for the passes that were sent, then for those that were not
  pub record_results : Text → BatchResult → Db → List HallPass × Db
  record_results recipient r db =
      let (sent_passes, db') =
        update_pass_email_delivery r.sent_pass_ids
          (record { recipient = recipient; status = sent; error = none }) now db in
      let (failed_passes, db'') =
        update_pass_email_delivery r.failed_pass_ids
          (record {
            recipient = recipient;
            status = failed;
            error = some (join (codes " ") r.errors);
          })
          now db' in
      (sent_passes ++ failed_passes, db'')

  -- The `if (shouldSendEmail)` block and the answer.
  answer_issued : Wanted → List HallPass → Handler
  answer_issued wanted passes db =
      let a = get_ticket_availability db in
      let r =
        send_pass_pdf_emails_batched provider wanted.recipient wanted.message pass_email_batch_size
          passes in
      let (updated, db') = record_results wanted.recipient r db in
      if wanted.send_email
      then (
        returned (
            issued (map (latest (passes ++ updated)) passes) a (
              some (record {
                success = length r.failed_pass_ids == 0;
                recipient_email = wanted.recipient;
                error = joined_errors r.errors;
              }))),
        db',
      )
      else (returned (issued passes a none), db)

  answer_created : Wanted → List Text → List HallPass → Handler
  answer_created wanted names [] db =
      (returned (limit_reached (limit_message names) (get_ticket_availability db)), db)
  answer_created wanted names (p ∷ ps) db = answer_issued wanted (p ∷ ps) db

  issue_checked : Wanted → Text → List Text → AuthSession → Option Text → Handler
  issue_checked wanted invite_from names session (some m) = pure (bad_request m)
  issue_checked wanted invite_from names session none = do
    passes ←
        λ db. create_passes (create_hall_passes upper now (some invite_from) session draws names db)
    answer_created wanted names passes

  -- The body of the handler; without a body no inviter is named.
  pub issue_passes : Option CreateBody → AuthSession → Handler
  issue_passes none session = pure (bad_request (codes "Select who the invite is from."))
  issue_passes (some body) session =
      issue_checked (wanted_of body.delivery) (trimmed body.invite_from) (guest_names_of body)
        session (refusal (wanted_of body.delivery) (trimmed body.invite_from) (guest_names_of body))

  -- `POST`
  unfoldable pub post_passes : Fence → Option AuthSession → Option CreateBody → Handler
  post_passes fence session body = administered fence session (issue_passes body)
