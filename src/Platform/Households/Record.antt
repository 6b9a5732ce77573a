-- ===== src/Platform/Households/Record.antt =====
-- The second loop of `submit` of packages/persistence/src/guests.ts: a place is taken where there is
-- one, and the answer is recorded. With `refreshTickets`.
use save_the_date.Base.{
  ℕ, suc, ◌+◌, Bool, true, false, not, ◌&&◌, ◌||◌, Option, none, some, List, [], ◌∷◌, ◌++◌, Text,
  codes, same, is_empty, any, filter, find?, update_where, if◌then◌else◌, leb, ◌>>=◌, ◌>>◌, pure,
}
use save_the_date.Platform.Households.{
  RsvpState, pending, confirmed, declined, waitlisted, Questions, Response, Responded, Queued,
}
use save_the_date.Platform.Households.Release.{
  is_declining, Tally, attendee_for, previous_of, holds,
}
use save_the_date.Platform.Admission.Model.{
  Db, Action, Event, Attendee, Rsvp, Pass, Policy, automatic, Ports,
}
use save_the_date.Platform.Admission.Guards.{error, query, update, refuse, add_ticket_jobs}
use save_the_date.Platform.Admission.Passes.{is_active, is_confirmed}
use save_the_date.Platform.Admission.Correct.{rename}

abbrev pub is_automatic : Policy → Bool
is_automatic automatic = true
is_automatic _ = false

unfoldable pub append_reservation : Text → Text → Db → Db
append_reservation attendee event db = record db {
  reservations = record { attendee_id = attendee; event_id = event } ∷ db.reservations;
}

-- `insert into std_reservations`: a violation of the primary key is answered as a conflict.
unfoldable pub insert_reservation : Text → Text → Action (Unit {0})
insert_reservation attendee event = do
  clash ← query (λ db. any (holds attendee event) db.reservations)
  refuse clash (error 409 (codes "CONFLICT"))
  update (append_reservation attendee event)

-- `event.capacity !== null && count >= event.capacity`
unfoldable pub is_reached : Option ℕ → Tally → Bool
is_reached none t = false
is_reached (some n) t = leb (n + t.released) (t.initial + t.taken)

-- The state of an answer, and the count after it
abbrev pub Placed : Type 0
Placed = RsvpState × Tally

unfoldable pub take_place : Text → Text → Tally → Action Placed
take_place attendee event t = do
  insert_reservation attendee event
  pure (confirmed, record t { taken = suc t.taken })

-- `reserved ? … : manual ? … : full ? … : …`
unfoldable pub attend : Event → Text → Bool → Tally → Action Placed
attend e attendee true t = pure (confirmed, t)
attend e attendee false t =
    if e.manual_approval
    then pure (pending, t)
    else if is_reached e.capacity t
    then pure (waitlisted, t)
    else take_place attendee e.id t

unfoldable pub place : Event → Text → Response → Tally → Action Placed
place e attendee r t = do
  reserved ← query (λ db. any (holds attendee e.id) db.reservations)
  if is_declining r.choice then pure (declined, t) else attend e attendee reserved t

-- `answer(field)`
unfoldable pub answer : Response → Bool → Text → Text
answer r asked value = if not (is_declining r.choice) && asked then value else []

unfoldable pub is_answer : Text → Text → Rsvp → Bool
is_answer attendee event v = same v.attendee_id attendee && same v.event_id event

unfoldable pub new_answer : Questions → Text → Text → Response → RsvpState → ℕ → Rsvp
new_answer q attendee event r state version = record {
  attendee_id = attendee;
  event_id = event;
  state = state;
  version = version;
  meal = answer r q.meal r.meal;
  dietary = answer r q.dietary r.dietary;
  accessibility = answer r q.accessibility r.accessibility;
  note = answer r q.note r.note;
}

-- `insert into std_rsvps … on conflict … do update … returning version`
unfoldable pub upsert_answer : (ℕ → Rsvp) → (Rsvp → Bool) → Option Rsvp → Action ℕ
upsert_answer row test none = do update (λ db. record db { rsvps = row 1 ∷ db.rsvps }); pure 1
upsert_answer row test (some old) = do
  update (λ db. record db { rsvps = update_where test (λ v. row (suc v.version)) db.rsvps })
  pure (suc old.version)

unfoldable pub next_ticket : Pass → Pass
next_ticket p = record p { version = suc p.version }

unfoldable pub note_tickets : Option Text → List Pass → Db → Db
note_tickets actor [] db = db
note_tickets actor (p ∷ ps) db = note_tickets actor ps (
    add_ticket_jobs p.id (suc p.version) db.primary_owner_id (record db {
      history =
          record {
            pass_id = p.id;
            action = codes "details_updated";
            actor_id = actor;
            reason = some (codes "Attendee name changed before admission");
          }
          ∷ db.history;
    }))

-- `refreshTickets(tx, id, attendeeId, actorId)`
unfoldable pub refresh_tickets : Text → Option Text → Action (Unit {0})
refresh_tickets id actor = do
  rows ← query (λ db. filter (λ (p : Pass). same p.attendee_id id && is_active p.status) db.passes)
  update (λ db. record db {
    passes = update_where (λ p. same p.attendee_id id && is_active p.status) next_ticket db.passes;
  })
  update (note_tickets actor rows)

-- `if (response.name && response.name !== attendee.name)`
unfoldable pub rename_attendee : Attendee → Text → Action (Unit {0})
rename_attendee a name =
    if is_empty name || same name a.name
    then pure tt
    else do update (rename a.id name); refresh_tickets a.id none

-- `insert into std_jobs … on conflict (dedupe_key) do nothing`
unfoldable pub queue : Text → Text → Db → Db
queue kind key db = record db {
  jobs =
      if any (λ (j : Queued). same j.dedupe_key key) db.jobs
      then db.jobs
      else record { kind = kind; dedupe_key = key } ∷ db.jobs;
}

unfoldable pub was_confirmed : Option Rsvp → Bool
was_confirmed none = false
was_confirmed (some r) = is_confirmed r.state

unfoldable pub issue_key : Ports → Text → Text → ℕ → Text
issue_key ports attendee event version =
    codes "pass-issue:" ++ attendee ++ codes ":" ++ event ++ codes ":" ++ ports.decimal version

-- The job that issues a pass to who is newly confirmed
unfoldable pub queue_issue : Ports → Event → Text → Option Rsvp → RsvpState → ℕ → Db → Db
queue_issue ports e attendee old state version db =
    if is_confirmed state && is_automatic e.admission_policy && not (was_confirmed old)
    then queue (codes "pass-issue") (issue_key ports attendee e.id version) db
    else db

module _ (ports : Ports) (e : Event) (asked : Questions) (attendees : List Attendee)
    (previous : List Rsvp) where
  -- One round of the loop
  unfoldable pub record_one : Response → Tally → Action (Responded × Tally)
  record_one r t = do
    a ← attendee_for attendees r.attendee_id
    placed ← place e a.id r t
    old ← query (λ db. find? (is_answer a.id e.id) db.rsvps)
    version ← upsert_answer (new_answer asked a.id e.id r placed.0) (is_answer a.id e.id) old
    rename_attendee a r.name
    update (queue_issue ports e a.id (previous_of previous a.id) placed.0 version)
    pure (record { attendee_id = a.id; state = placed.0; version = version }, placed.1)

  unfoldable pub record_all : List Response → Tally → Action (List Responded × Tally)
  record_all [] t = pure ([], t)
  record_all (r ∷ rs) t = do
    one ← record_one r t
    rest ← record_all rs one.1
    pure (one.0 ∷ rest.0, rest.1)
