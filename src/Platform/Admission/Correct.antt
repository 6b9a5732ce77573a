-- ===== src/Platform/Admission/Correct.antt =====
-- Correcting an attendee who was admitted: `correction` of packages/persistence/src/passes.ts.
use save_the_date.Base.{
  ℕ, suc, ◌-◌, ◌==◌, Bool, false, not, ◌&&◌, Option, none, some, List, [], ◌∷◌, ◌++◌, Text, codes,
  same, is_empty, any, filter, find?, update_where, if◌then◌else◌, leb, or_null, ◌>>=◌, ◌>>◌, pure,
}
use save_the_date.Platform.Capability.{not_found}
use save_the_date.Platform.Admission.Model.{
  Db, Action, Event, Attendee, Rsvp, RsvpState, confirmed, declined, Reservation, Admission, Answer,
  corrected, Corrected, to_confirmed, to_declined, CorrectionInput, Ports,
}
use save_the_date.Platform.Admission.Guards.{
  error, query, update, transaction, refuse, needed, owner_only, event_row, operation, add_result,
  once,
}

-- `update std_attendees set name = $3, version = version + 1`
unfoldable pub rename : Text → Text → Db → Db
rename id name db = record db {
  attendees =
      update_where (λ (a : Attendee). same a.id id)
        (λ a. record a { name = name; version = suc a.version }) db.attendees;
}

-- `if (input.name)`
unfoldable pub correct_name : CorrectionInput → Action (Unit {0})
correct_name i = if is_empty i.name then pure tt else update (rename i.attendee_id i.name)

unfoldable pub reserved_by : CorrectionInput → Reservation → Bool
reserved_by i s = same s.attendee_id i.attendee_id && same s.event_id i.event_id

unfoldable pub set_count : Text → (ℕ → ℕ) → Db → Db
set_count id f db = record db {
  events =
      update_where (λ (e : Event). same e.id id)
        (λ e. record e { confirmed_count = f e.confirmed_count }) db.events;
}

unfoldable pub release : CorrectionInput → Db → Db
release i db = record db { reservations = filter (λ s. not (reserved_by i s)) db.reservations }

unfoldable pub reserve : CorrectionInput → Db → Db
reserve i db = record db {
  reservations = record { attendee_id = i.attendee_id; event_id = i.event_id } ∷ db.reservations;
}

-- `confirmed_count = confirmed_count - 1`, where the column has its check `confirmed_count >= 0`,
-- which PostgreSQL refuses with the code 23514
unfoldable pub count_down : CorrectionInput → Event → Action (Unit {0})
count_down i e = do
  refuse (e.confirmed_count == 0) (error 500 (codes "23514"))
  update (set_count i.event_id (λ n. n - 1))

-- The branch `declined`
unfoldable pub correct_declined : CorrectionInput → Event → Action (Unit {0})
correct_declined i e = do
  released ← query (λ db. any (reserved_by i) db.reservations)
  update (release i)
  if released then count_down i e else pure tt

-- `capacity !== null && confirmed_count >= capacity`
unfoldable pub is_full : Event → Bool
is_full e = elim e.capacity [ none ↦ false | some n ↦ leb n e.confirmed_count ]

unfoldable pub confirm_anew : CorrectionInput → Event → Action (Unit {0})
confirm_anew i e = do
  refuse (is_full e) (error 409 (codes "CAPACITY_FULL"))
  update (reserve i)
  update (set_count i.event_id suc)

-- The branch `confirmed`
unfoldable pub correct_confirmed : CorrectionInput → Event → Action (Unit {0})
correct_confirmed i e = do
  has_place ← query (λ db. any (reserved_by i) db.reservations)
  if has_place then pure tt else confirm_anew i e

unfoldable pub set_state : CorrectionInput → RsvpState → Db → Db
set_state i state db = record db {
  rsvps =
      update_where (λ (r : Rsvp). same r.attendee_id i.attendee_id && same r.event_id i.event_id)
        (λ r. record r { state = state; version = suc r.version }) db.rsvps;
}

-- `if (input.state …)`
unfoldable pub correct_state : CorrectionInput → Event → Option Corrected → Action (Unit {0})
correct_state i e none = pure tt
correct_state i e (some to_declined) = do correct_declined i e; update (set_state i declined)
correct_state i e (some to_confirmed) = do correct_confirmed i e; update (set_state i confirmed)

unfoldable pub state_of : Option Rsvp → Option RsvpState
state_of none = none
state_of (some r) = some r.state

unfoldable pub add_correction : Text → CorrectionInput → Attendee → Option Rsvp → Db → Db
add_correction actor i a r db = record db {
  corrections =
      record {
        actor_id = actor;
        previous_name = a.name;
        previous_state = state_of r;
        correction = i;
      }
      ∷ db.corrections;
  audits =
      record {
        actor_id = some actor;
        action = codes "admission.corrected";
        resource_id = i.attendee_id;
        reason = some i.reason;
      }
      ∷ db.audits;
}

unfoldable pub corrected_text : Option Corrected → Option Text
corrected_text none = none
corrected_text (some to_confirmed) = some (codes "confirmed")
corrected_text (some to_declined) = some (codes "declined")

-- The input, as the digest takes it
unfoldable pub input_body : CorrectionInput → List (Option Text)
input_body i =
    some i.attendee_id
    ∷ some i.event_id
    ∷ or_null i.name
    ∷ corrected_text i.state
    ∷ some i.reason
    ∷ []

-- The part behind the key
unfoldable pub correct_once : Text → CorrectionInput → Attendee → Event → Action (Unit {0})
correct_once actor i a e = do
  was_admitted ← query (λ db.
      any (λ (d : Admission). same d.attendee_id i.attendee_id && same d.event_id i.event_id)
        db.admissions)
  refuse (not was_admitted) (error 409 (codes "NO_ADMISSION"))
  r ← query (λ db.
      find? (λ (r : Rsvp). same r.attendee_id i.attendee_id && same r.event_id i.event_id) db.rsvps)
  correct_name i
  correct_state i e i.state
  update (add_correction actor i a r)

-- `correction(actor, id, input, key)`
unfoldable pub correct : Ports → Text → CorrectionInput → Text → Action Answer
correct ports actor i key =
    let name = codes "admission-correction:" ++ i.event_id in
    transaction (do
      owner_only actor
      row ← query (λ db. find? (λ (a : Attendee). same a.id i.attendee_id) db.attendees)
      a ← needed not_found row
      e ← event_row i.event_id
      previous ← operation ports actor name key (input_body i)
      once previous (do
        correct_once actor i a e
        update (add_result ports actor name key (input_body i) corrected)
        pure corrected))
