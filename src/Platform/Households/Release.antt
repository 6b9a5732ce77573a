-- ===== src/Platform/Households/Release.antt =====
-- The first loop of `submit` of packages/persistence/src/guests.ts: the answers are compared with
-- the rows that they were made for, and what is declined is released. The count of confirmed places
-- is kept as the places that were taken and released since the row was read.
use save_the_date.Base.{
  ℕ, suc, ◌+◌, ◌==◌, Bool, true, false, not, ◌&&◌, ◌||◌, Option, none, some, List, [], ◌∷◌, Text,
  codes, same, is_empty, any, count, filter, find?, update_where, if◌then◌else◌, ◌>>=◌, ◌>>◌, pure,
}
use save_the_date.Platform.Households.{Choice, attending, declining, Response}
use save_the_date.Platform.Households.Access.{add_audit}
use save_the_date.Platform.Admission.Model.{
  Db, Action, Attendee, Rsvp, Reservation, Pass, Admission, revoked,
}
use save_the_date.Platform.Admission.Guards.{error, query, update, refuse, needed}
use save_the_date.Platform.Admission.Passes.{is_active}

abbrev pub is_declining : Choice → Bool
is_declining declining = true
is_declining attending = false

-- `count`, which starts at `confirmed_count`
pub record Tally : Type 0 where
  pub initial : ℕ
  pub taken : ℕ
  pub released : ℕ

-- `attendees.rows.find(a => a.id === response.attendeeId)`; reading a column of `undefined` throws.
unfoldable pub attendee_for : List Attendee → Text → Action Attendee
attendee_for attendees id =
    needed (error 500 (codes "TypeError")) (find? (λ (a : Attendee). same a.id id) attendees)

-- `previous.rows.find(r => r.attendee_id === response.attendeeId)`
unfoldable pub previous_of : List Rsvp → Text → Option Rsvp
previous_of previous id = find? (λ (r : Rsvp). same r.attendee_id id) previous

-- `old?.version ?? 0`
unfoldable pub version_of : Option Rsvp → ℕ
version_of none = 0
version_of (some r) = r.version

unfoldable pub holds : Text → Text → Reservation → Bool
holds attendee event s = same s.attendee_id attendee && same s.event_id event

unfoldable pub is_held_pass : Text → Text → Pass → Bool
is_held_pass attendee event p =
    same p.attendee_id attendee && same p.event_id event && is_active p.status

unfoldable pub as_revoked_for : Text → Pass → Pass
as_revoked_for reason p = record p {
  status = revoked;
  encrypted_payload = none;
  revoked_reason = some reason;
  version = suc p.version;
}

-- A row of the history and an audit event for each pass that was revoked
unfoldable pub note_revoked : Option Text → Text → List Pass → Db → Db
note_revoked actor reason [] db = db
note_revoked actor reason (p ∷ ps) db = note_revoked actor reason ps (
    add_audit actor (codes "pass.revoked") p.id (record db {
      history =
          record {
            pass_id = p.id;
            action = codes "revoked";
            actor_id = actor;
            reason = some reason;
          }
          ∷ db.history;
    }))

unfoldable pub revoke_held : Option Text → Text → (Pass → Bool) → Action (Unit {0})
revoke_held actor reason test = do
  rows ← query (λ db. filter test db.passes)
  update (λ db. record db { passes = update_where test (as_revoked_for reason) db.passes })
  update (note_revoked actor reason rows)

unfoldable pub drop_reservations : (Reservation → Bool) → Db → Db
drop_reservations test db = record db { reservations = filter (λ s. not (test s)) db.reservations }

-- `if (response.choice === 'declining')`
unfoldable pub release_place : Text → Text → Tally → Action Tally
release_place event_id attendee_id t = do
  gone ← query (λ db. count (holds attendee_id event_id) db.reservations)
  update (drop_reservations (holds attendee_id event_id))
  revoke_held none (codes "RSVP declined") (is_held_pass attendee_id event_id)
  pure (record t { released = t.released + gone })

unfoldable pub admissions_of : Text → Db → List Admission
admissions_of id db = filter (λ (d : Admission). same d.attendee_id id) db.admissions

-- `admitted.rowCount && (name !== … || declining && admitted.rows.some(…))`
unfoldable pub is_conflict : Text → Response → Attendee → List Admission → Bool
is_conflict event_id r a [] = false
is_conflict event_id r a (d ∷ ds) =
    not (same r.name a.name)
    || (is_declining r.choice && any (λ (b : Admission). same b.event_id event_id) (d ∷ ds))

module _ (event_id : Text) (attendees : List Attendee) (previous : List Rsvp) where
  -- One round of the loop
  unfoldable pub release_one : Response → Tally → Action Tally
  release_one r t = do
    a ← attendee_for attendees r.attendee_id
    refuse
        (not (version_of (previous_of previous r.attendee_id) == r.expected_version)
          || not (a.version == r.attendee_version))
        (error 409 (codes "VERSION_CONFLICT"))
    admitted ← query (admissions_of a.id)
    refuse (is_conflict event_id r a admitted) (error 409 (codes "ALREADY_ADMITTED"))
    refuse (not (is_declining r.choice) && is_empty r.name)
        (error 400 (codes "ATTENDEE_NAME_REQUIRED"))
    if is_declining r.choice then release_place event_id a.id t else pure t

  unfoldable pub release_all : List Response → Tally → Action Tally
  release_all [] t = pure t
  release_all (r ∷ rs) t = do t' ← release_one r t; release_all rs t'
