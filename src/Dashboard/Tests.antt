-- ===== src/Dashboard/Tests.antt =====
-- The form at concrete fields.
use save_the_date.Base.{
  ℕ, ◌≡◌, refl, Option, none, some, [], ◌∷◌, Text, codes, length, returned, trim, trim_start,
  is_space, same, if◌then◌else◌,
}
use save_the_date.Routes.Issue.{trimmed, guest_names_of, wanted_of, refusal}
use save_the_date.Dashboard.Form.{
  Form, bulk, generate, onto_first, split_names, parse_bulk_guest_names, is_over_ticket_limit,
  requested_pass_count, form_error, body_of, send_or_show, handle_create_pass,
}
use save_the_date.Dashboard.Form.Laws.{handle_create_pass_accepted}

-- `Number` of one digit
abbrev digit : Text → Option ℕ
digit s = if same s (codes "3") then some 3 else none

abbrev form : Form
form = record {
  guest_name = [];
  bulk_guest_names = codes "Ada, Bob,";
  bulk_pass_count = codes "3";
  generation_mode = bulk;
  delivery_mode = generate;
  recipient_email = [];
  email_message = [];
  invite_from = codes "Bride";
  remaining_count = some 5;
}

two_named : parse_bulk_guest_names (codes "Ada, Bob,") ≡ codes "Ada" ∷ codes "Bob" ∷ []
unfolding parse_bulk_guest_names split_names onto_first trim trim_start is_space
two_named = refl

form_sends : handle_create_pass digit form ≡ returned (body_of digit form)
unfolding handle_create_pass send_or_show form_error requested_pass_count parse_bulk_guest_names
    split_names onto_first trim trim_start is_space is_over_ticket_limit same
form_sends = refl

handle_create_pass_accepted_example :
    let body = body_of digit form in
    (refusal (wanted_of body.delivery) (trimmed body.invite_from) (guest_names_of body) ≡ none)
    × (length (guest_names_of body) ≡ requested_pass_count digit form)
handle_create_pass_accepted_example =
    handle_create_pass_accepted digit form (body_of digit form) form_sends
