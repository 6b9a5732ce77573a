-- ===== src/Dashboard/Form.antt =====
-- The form that issues passes: what it derives from its fields, and `handleCreatePass` up to the
-- request. `number` gives the positive integer that `Number` reads in a text, if it is one.
pub mod Laws
use save_the_date.Base.{
  ℕ, zero, suc, Bool, true, false, not, ◌&&◌, ◌||◌, Option, none, some, List, [], ◌∷◌, ◌++◌, map,
  Text, codes, is_empty, trim, filter, length, ltb, leb, ◌==◌, or_else, if◌then◌else◌, Outcome,
  returned, thrown,
}
use save_the_date.Mail.Address.{is_likely_email}
use save_the_date.Routes.Issue.{CreateBody}

pub data GenerationMode : Type 0 where
  single bulk : GenerationMode

pub data DeliveryMode : Type 0 where
  generate email : DeliveryMode

pub record Form : Type 0 where
  pub guest_name : Text
  pub bulk_guest_names : Text
  pub bulk_pass_count : Text
  pub generation_mode : GenerationMode
  pub delivery_mode : DeliveryMode
  pub recipient_email : Text
  pub email_message : Text
  pub invite_from : Text
  pub remaining_count : Option ℕ

abbrev pub max_batch_size : ℕ
max_batch_size = 100

-- `split(/[\n,]+/)`, but for the empty parts inside a run of separators, which the filter drops
unfoldable pub onto_first : ℕ → List Text → List Text
onto_first c [] = (c ∷ []) ∷ []
onto_first c (s ∷ rest) = (c ∷ s) ∷ rest

unfoldable pub split_names : Text → List Text
split_names [] = [] ∷ []
split_names (c ∷ s) =
    let rest = split_names s in if c == 10 || c == 44 then [] ∷ rest else onto_first c rest

-- `parseBulkGuestNames(value)`
unfoldable pub parse_bulk_guest_names : Text → List Text
parse_bulk_guest_names value = filter (λ s. not (is_empty s)) (map trim (split_names value))

-- `Math.max`
abbrev pub larger : ℕ → ℕ → ℕ
larger a b = if ltb a b then b else a

abbrev pub should_email : DeliveryMode → Bool
should_email email = true
should_email generate = false

abbrev pub is_bulk : GenerationMode → Bool
is_bulk bulk = true
is_bulk single = false

-- `remaining_count !== null && requestedPassCount > remaining_count`
unfoldable pub is_over_ticket_limit : Option ℕ → ℕ → Bool
is_over_ticket_limit none n = false
is_over_ticket_limit (some left) n = ltb left n

-- `Array.from({ length: n }, (_, index) => names[index] ?? "")`
unfoldable pub padded : ℕ → List Text → List Text
padded zero names = []
padded (suc n) [] = [] ∷ padded n []
padded (suc n) (x ∷ names) = x ∷ padded n names

module _ (number : Text → Option ℕ) where
  -- `requestedPassCount`
  unfoldable pub requested_pass_count : Form → ℕ
  requested_pass_count f =
      if is_bulk f.generation_mode
      then larger (or_else (number f.bulk_pass_count) 0)
          (length (parse_bulk_guest_names f.bulk_guest_names))
      else 1

  -- The tests of `handleCreatePass`, with the error of the first that fails
  unfoldable pub form_error : Form → Option Text
  form_error f =
      let n = requested_pass_count f in
      if is_bulk f.generation_mode && n == 0
      then some (codes "Enter how many passes to generate.")
      else if is_bulk f.generation_mode && ltb max_batch_size n
      then some (codes "You can generate up to 100 passes at once.")
      else if is_over_ticket_limit f.remaining_count n
      then some (codes "There are not enough tickets left for this batch.")
      else if should_email f.delivery_mode && not (is_likely_email f.recipient_email)
      then some (codes "Enter a valid recipient email address.")
      else if is_empty (trim f.invite_from)
      then some (codes "Select who the invite is from.")
      else none

  -- The body of the request
  unfoldable pub body_of : Form → CreateBody
  body_of f = record {
    guest_name = some f.guest_name;
    guest_names =
        if is_bulk f.generation_mode
        then some
            (map some (padded (requested_pass_count f) (parse_bulk_guest_names f.bulk_guest_names)))
        else none;
    invite_from = some f.invite_from;
    delivery = some (record {
      send_email = should_email f.delivery_mode;
      recipient_email = some f.recipient_email;
      message = some f.email_message;
    });
  }

  unfoldable pub send_or_show : Form → Option Text → Outcome Text CreateBody
  send_or_show f none = returned (body_of f)
  send_or_show f (some e) = thrown e

  -- `handleCreatePass()`: the request that it sends, or the error that it shows
  unfoldable pub handle_create_pass : Form → Outcome Text CreateBody
  handle_create_pass f = send_or_show f (form_error f)
