-- ===== src/Dashboard/Panel/Dialogs.antt =====
-- The handlers of the limit, the preview, resending and invalidation of
-- apps/web/src/components/admin/PassDashboard.tsx.
use save_the_date.Base.{
  ℕ, ◌+◌, ◌-◌, ◌==◌, Bool, true, false, not, Option, none, some, [], Text, codes, is_empty, trim,
  filter, update_where, or_else, if◌then◌else◌,
}
use save_the_date.Mail.Address.{is_likely_email}
use save_the_date.HallPasses.Model.{HallPass, TicketAvailability}
use save_the_date.Routes.Administer.{EmailBody}
use save_the_date.Dashboard.Panel.{Panel, Preview, notice}

-- `number` gives the natural number that `Number` reads in a text, if it is one.
module _ (number : Text → Option ℕ) where
  -- `handleSaveTicketLimit`, up to its request: the limit that is sent, or `none` after an error.
  unfoldable pub limit_of : Text → Option (Option ℕ)
  limit_of trimmed =
      if is_empty trimmed
      then some none
      else elim (number trimmed) [ none ↦ none | some n ↦ some (some n) ]

  unfoldable pub save_ticket_limit : Panel → Panel × Option (Option ℕ)
  save_ticket_limit p =
      let wanted = limit_of (trim p.ticket_limit_input) in
      elim wanted [
        | none ↦ (
          notice (codes "Invalid ticket limit") (record p {
            error = codes "Ticket limit must be a non-negative whole number.";
            is_saving_ticket_limit = false;
          }),
          none,
        )
        | some limit ↦ (record p { error = []; is_saving_ticket_limit = true }, some limit)
      ]

-- `handleViewPass(pass)`
unfoldable pub view_pass : HallPass → Panel → Panel
view_pass pass p = record p {
  error = [];
  selected_pass = some (record { pass = pass; qr_value = pass.token });
}

-- `openResendEmail(pass)`
unfoldable pub open_resend_email : HallPass → Panel → Panel
open_resend_email pass p = record p {
  error = [];
  pass_to_email = some pass;
  resend_email = or_else pass.email_recipient p.recipient_email;
  resend_message = p.email_message;
}

-- `handleResendEmail`, up to its request: the pass and the body that are sent, if any
unfoldable pub resend_to : Option HallPass → Panel → Panel × Option (ℕ × EmailBody)
resend_to none p = (p, none)
resend_to (some pass) p =
    if is_likely_email p.resend_email
    then (
      record p { error = []; is_resending_email = true },
      some (
        pass.id,
        record { recipient_email = some p.resend_email; message = some p.resend_message },
      ),
    )
    else (
      notice (codes "Email not sent")
          (record p { error = codes "Enter a valid recipient email address." }),
      none,
    )

unfoldable pub resend : Panel → Panel × Option (ℕ × EmailBody)
resend p = resend_to p.pass_to_email p

-- `selectedPass?.pass.id === pass.id`
unfoldable pub refresh_preview : HallPass → Option Preview → Option Preview
refresh_preview pass none = none
refresh_preview pass (some s) =
    if s.pass.id == pass.id then some (record { pass = pass; qr_value = pass.token }) else some s

unfoldable pub put_pass : Option HallPass → Panel → Panel
put_pass none p = p
put_pass (some pass) p = record p {
  passes = update_where (λ (q : HallPass). q.id == pass.id) (λ q. pass) p.passes;
  selected_pass = refresh_preview pass p.selected_pass;
}

-- The rest of it: whether the answer is fine, the pass of its body and its error
unfoldable pub resent : Bool → Option HallPass → Option Text → Panel → Panel
resent ok pass e p =
    let q = put_pass pass (record p { is_resending_email = false }) in
    if ok
    then notice (codes "Ticket emailed") (record q { pass_to_email = none })
    else notice (codes "Email failed")
        (record q { error = or_else e (codes "Could not resend this ticket email.") })

-- `handleInvalidatePass`, up to its request: the id that is sent, if any
unfoldable pub invalidate : Panel → Panel × Option ℕ
invalidate p = elim p.pass_to_invalidate [
  | none ↦ (p, none)
  | some pass ↦ (record p { is_invalidating = true }, some pass.id)
]

-- `decimal` is `toString` of a number.
module _ (decimal : ℕ → Text) where
  abbrev limit_text : TicketAvailability → Text
  limit_text a = elim a.ticket_limit [ none ↦ [] | some n ↦ decimal n ]

  -- The rest of it
  unfoldable pub ticket_limit_saved : Option TicketAvailability → Panel → Panel
  ticket_limit_saved none p =
      notice (codes "Ticket limit not updated") (record p {
        is_saving_ticket_limit = false;
        error = codes "Could not update ticket limit.";
      })
  ticket_limit_saved (some a) p = notice (codes "Ticket limit updated") (record p {
    is_saving_ticket_limit = false;
    ticket_availability = a;
    ticket_limit_input = limit_text a;
    is_editing_ticket_limit = false;
  })

  -- The buttons beside the limit
  unfoldable pub edit_ticket_limit : Panel → Panel
  edit_ticket_limit p = record p {
    ticket_limit_input = limit_text p.ticket_availability;
    is_editing_ticket_limit = true;
  }

  unfoldable pub cancel_ticket_limit : Panel → Panel
  cancel_ticket_limit p = record p {
    ticket_limit_input = limit_text p.ticket_availability;
    is_editing_ticket_limit = false;
  }

  unfoldable pub set_limit_of : Option TicketAvailability → Panel → Panel
  set_limit_of none p = p
  set_limit_of (some a) p = record p { ticket_availability = a; ticket_limit_input = limit_text a }

  unfoldable pub drop_pass : HallPass → Option TicketAvailability → Panel → Panel
  drop_pass pass a p =
      let q =
        set_limit_of a
          (record p { passes = filter (λ (q : HallPass). not (q.id == pass.id)) p.passes }) in
      notice (codes "QR code invalidated") (record q {
        selected_pass = refresh_preview pass q.selected_pass;
        active_pass_count = q.active_pass_count - 1;
        invalidated_pass_count = q.invalidated_pass_count + 1;
        total_passes = q.total_passes - 1;
        pass_to_invalidate = none;
      })

  -- The rest of it, before the list is loaded again: whether the answer is fine, and the pass and
  -- the availability of its body
  unfoldable pub invalidated_pass :
      Bool → Option HallPass → Option TicketAvailability → Panel → Panel
  invalidated_pass false pass a p =
      notice (codes "Invalidation failed") (record p { is_invalidating = false })
  invalidated_pass true none a p =
      notice (codes "Invalidation failed") (record p { is_invalidating = false })
  invalidated_pass true (some pass) a p = drop_pass pass a (record p { is_invalidating = false })
