-- ===== src/Platform/Households/Manage.antt =====
-- What the couple does about the answers: `approve` and `remove` of
-- packages/persistence/src/guests.ts, with the ledger of
-- packages/adapters/src/resource-erasure-ledger.ts.
use save_the_date.Base.{
  ℕ, suc, ◌-◌, ◌==◌, Bool, true, false, not, ◌&&◌, ◌||◌, Option, none, some, List, [], ◌∷◌, map,
  Text, codes, same, is_none, any, filter, find?, update_where, if◌then◌else◌, returned, thrown,
  ◌>>=◌, ◌>>◌, pure, throw,
}
use save_the_date.Platform.Capability.{edit, not_found}
use save_the_date.Platform.Households.{RsvpState, pending, confirmed, declined, waitlisted}
use save_the_date.Platform.Households.Access.{add_audit}
use save_the_date.Platform.Households.Release.{drop_reservations, revoke_held}
use save_the_date.Platform.Households.Record.{
  is_answer, insert_reservation, is_automatic, queue, issue_key,
}
use save_the_date.Platform.Admission.Model.{
  Action, Event, Attendee, Rsvp, Reservation, Pass, Admission, Ports, Circumstances, Writing,
  written, refused, unacknowledged,
}
use save_the_date.Platform.Admission.Guards.{
  error, query, update, transaction, refuse, needed, owner_only, require_tenant, event_row,
}
use save_the_date.Platform.Admission.Passes.{is_active}
use save_the_date.Platform.Admission.Correct.{is_full, set_count}

abbrev pub is_open_state : RsvpState → Bool
is_open_state pending = true
is_open_state waitlisted = true
is_open_state _ = false

unfoldable pub as_approved : Rsvp → Rsvp
as_approved r = record r { state = confirmed; version = suc r.version }

-- `if (!r.rowCount || r.rows[0].version !== version) throw …`
unfoldable pub approvable : ℕ → Option Rsvp → Action Rsvp
approvable version none = throw (error 409 (codes "VERSION_CONFLICT"))
approvable version (some r) = do
  refuse (not (r.version == version)) (error 409 (codes "VERSION_CONFLICT"))
  pure r

-- `approve(actor, id, eventId, attendeeId, version)`
unfoldable pub approve : Ports → Text → Text → Text → ℕ → Action (Unit {0})
approve ports actor event_id attendee_id version = transaction (do
  owner_only actor
  e ← event_row event_id
  row ← query (λ db.
      find? (λ (r : Rsvp). is_answer attendee_id event_id r && is_open_state r.state) db.rsvps)
  r ← approvable version row
  refuse (is_full e) (error 409 (codes "CAPACITY_FULL"))
  insert_reservation attendee_id event_id
  update (set_count event_id suc)
  update (λ db. record db {
    rsvps = update_where (is_answer attendee_id event_id) as_approved db.rsvps;
  })
  update (λ db.
      if is_automatic e.admission_policy
      then queue (codes "pass-issue") (issue_key ports attendee_id event_id (suc r.version)) db
      else db)
  update (add_audit (some actor) (codes "rsvp.approved") attendee_id))

-- `confirmed_count = confirmed_count - 1`, with the check of the column
unfoldable pub give_back : Text → Action (Unit {0})
give_back event_id = do
  broken ← query (λ db. any (λ (e : Event). same e.id event_id && e.confirmed_count == 0) db.events)
  refuse broken (error 500 (codes "23514"))
  update (set_count event_id (λ n. n - 1))

unfoldable pub give_back_all : List Text → Action (Unit {0})
give_back_all [] = pure tt
give_back_all (e ∷ es) = do give_back e; give_back_all es

unfoldable pub as_declined : Rsvp → Rsvp
as_declined r = record r {
  state = declined;
  meal = [];
  dietary = [];
  accessibility = [];
  note = [];
  version = suc r.version;
}

unfoldable pub as_deleted : ℕ → Attendee → Attendee
as_deleted now a = record a { deleted_at = some now; version = suc a.version }

unfoldable pub is_seat_of : Text → Reservation → Bool
is_seat_of id s = same s.attendee_id id

-- One round of the loop over the attendee and who came with them
unfoldable pub remove_one : ℕ → Text → Text → Action (Unit {0})
remove_one now actor id = do
  admitted ← query (λ db. any (λ (d : Admission). same d.attendee_id id) db.admissions)
  refuse admitted (error 409 (codes "ADMITTED_GUEST"))
  freed ← query (λ db. map Reservation.event_id (filter (is_seat_of id) db.reservations))
  update (drop_reservations (is_seat_of id))
  give_back_all freed
  update (λ db. record db {
    rsvps = update_where (λ (r : Rsvp). same r.attendee_id id) as_declined db.rsvps;
  })
  revoke_held (some actor) (codes "Guest removed")
      (λ (p : Pass). same p.attendee_id id && is_active p.status)
  update (λ db. record db {
    attendees = update_where (λ (a : Attendee). same a.id id) (as_deleted now) db.attendees;
  })

unfoldable pub remove_all : ℕ → Text → List Text → Action (Unit {0})
remove_all now actor [] = pure tt
remove_all now actor (id ∷ ids) = do remove_one now actor id; remove_all now actor ids

-- `resourceErasureLedger?.write(…)`; what it throws is not a `DomainError`.
unfoldable pub erase : Writing → Text → Action (Unit {0})
erase written id w = (returned tt, record w { erasures = id ∷ w.erasures })
erase refused id w = (thrown (error 500 (codes "STORAGE")), w)
erase unacknowledged id w =
    (thrown (error 500 (codes "STORAGE")), record w { erasures = id ∷ w.erasures })

unfoldable pub erase_all : Circumstances → List Text → Action (Unit {0})
erase_all c [] = pure tt
erase_all c (id ∷ ids) = do erase (c.erasure_write id) id; erase_all c ids

unfoldable pub is_guest : Text → Attendee → Bool
is_guest id a = same a.id id && is_none a.deleted_at

-- `plus_one_of = $2`
unfoldable pub came_with : Text → Attendee → Bool
came_with id a = elim a.plus_one_of [ none ↦ false | some host ↦ same host id ]

-- `remove(actor, id, attendeeId, version)`
unfoldable pub remove : Circumstances → Text → Text → ℕ → Action (Unit {0})
remove c actor attendee_id version = transaction (do
  require_tenant actor edit none
  row ← query (λ db. find? (is_guest attendee_id) db.attendees)
  a ← needed not_found row
  refuse (not (a.version == version)) (error 409 (codes "VERSION_CONFLICT"))
  related ← query (λ db.
      map Attendee.id
        (filter (λ (b : Attendee). same b.id attendee_id || came_with attendee_id b) db.attendees))
  remove_all c.now actor related
  erase_all c related
  update (add_audit (some actor) (codes "guest.deleted") attendee_id))
