-- ===== src/Platform/Admission/Passes.antt =====
-- Issuing passes: `issue` and `issueIn` of packages/persistence/src/passes.ts.
use save_the_date.Base.{
  Bool, true, false, not, ◌&&◌, ◌||◌, Option, none, some, List, [], ◌∷◌, ◌++◌, Text, codes, same,
  is_none, any, filter, find?, if◌then◌else◌, ◌>>=◌, ◌>>◌, pure, throw, ◌==◌,
}
use save_the_date.Platform.Admission.Model.{
  Db, Action, Pass, PassStatus, active, Event, Attendee, Rsvp, RsvpState, confirmed, Reservation,
  Policy, disabled, Answer, pass_version, Ports, Circumstances,
}
use save_the_date.Platform.Admission.Guards.{
  error, query, update, transaction, refuse, needed, owner_only, legacy_hold, event_row,
  add_history, add_ticket_jobs, operation, add_result, once,
}

abbrev pub is_active : PassStatus → Bool
is_active active = true
is_active _ = false

abbrev pub is_disabled : Policy → Bool
is_disabled disabled = true
is_disabled _ = false

abbrev pub is_confirmed : RsvpState → Bool
is_confirmed confirmed = true
is_confirmed _ = false

unfoldable pub rsvp_confirmed : Text → Text → Db → Bool
rsvp_confirmed attendee event db =
    any (λ (r : Rsvp). same r.attendee_id attendee && same r.event_id event && is_confirmed r.state)
      db.rsvps

-- The attendee is not deleted, confirmed, and holds a reservation.
unfoldable pub is_eligible : Text → Text → Db → Bool
is_eligible attendee event db =
    any (λ (a : Attendee). same a.id attendee && is_none a.deleted_at) db.attendees
    && rsvp_confirmed attendee event db
    && any (λ (s : Reservation). same s.attendee_id attendee && same s.event_id event)
        db.reservations

-- The unique columns that two rows share
unfoldable pub clashes : Pass → Pass → Bool
clashes p q =
    same p.id q.id
    || same p.credential_hash q.credential_hash
    || same p.manual_hash q.manual_hash
    || (same p.attendee_id q.attendee_id && same p.event_id q.event_id)

unfoldable pub append_pass : Pass → Db → Db
append_pass p db = record db { passes = db.passes ++ p ∷ [] }

-- `insert into std_passes`: a unique violation is answered as a conflict.
unfoldable pub insert_pass : Pass → Action (Unit {0})
insert_pass p = do
  clash ← query (λ db. any (clashes p) db.passes)
  refuse clash (error 409 (codes "CONFLICT"))
  update (append_pass p)

-- `match(/.{4}/g)`
unfoldable pub fours : Text → List Text
fours (a ∷ b ∷ c ∷ d ∷ s) = (a ∷ b ∷ c ∷ d ∷ []) ∷ fours s
fours _ = []

-- `join('-')`
unfoldable pub join_dashes : List Text → Text
join_dashes [] = []
join_dashes (s ∷ []) = s
join_dashes (s ∷ t ∷ rest) = s ++ codes "-" ++ join_dashes (t ∷ rest)

-- `replaceAll('-', '')`
abbrev pub without_dashes : Text → Text
without_dashes s = filter (λ c. not (c == 45)) s

abbrev pub manual_code : Text → Text
manual_code drawn = codes "ADM-" ++ join_dashes (fours drawn)

module _ (ports : Ports) (c : Circumstances) where
  -- `available()`
  unfoldable pub available : Action (Text → Text → Text → Text)
  available = needed (error 503 (codes "ADMISSION_KEY_REQUIRED")) ports.seal

  unfoldable pub credential_hash : Text
  credential_hash = ports.hash (codes "admission:" ++ c.credential)

  unfoldable pub manual_hash : Text
  manual_hash = ports.hash (codes "admission:" ++ without_dashes (manual_code c.manual_credential))

  -- `available().seal(creds, id.toLowerCase() + ':' + pid)`
  unfoldable pub payload : (Text → Text → Text → Text) → Text → Text → Text
  payload seal wedding_id pass_id =
      seal c.credential (manual_code c.manual_credential)
        (ports.lower wedding_id ++ codes ":" ++ pass_id)

  unfoldable pub new_pass : Text → Text → Text → Pass
  new_pass attendee event sealed = record {
    id = c.fresh_id;
    attendee_id = attendee;
    event_id = event;
    status = active;
    credential_hash = credential_hash;
    manual_hash = manual_hash;
    encrypted_payload = some sealed;
    version = 1;
    used_at = none;
    used_by = none;
    issued_at = c.now;
    revoked_reason = none;
  }

  -- What `issueIn` does with the pass that the attendee has for the event, if any
  unfoldable pub issue_over : Text → Text → Text → Option Pass → Action Answer
  issue_over actor attendee event (some p) =
      if is_active p.status
      then pure (pass_version p.id p.version)
      else throw (error 409 (codes "PASS_LINEAGE_EXISTS"))
  issue_over actor attendee event none = do
    seal ← available
    wedding_id ← query Db.wedding_id
    insert_pass (new_pass attendee event (payload seal wedding_id c.fresh_id))
    update (λ db.
        add_ticket_jobs c.fresh_id 1 actor
          (add_history c.fresh_id (codes "issued") (some actor) none db))
    pure (pass_version c.fresh_id 1)

  -- `issueIn(tx, id, attendeeId, event, actorId)`
  unfoldable pub issue_in : Text → Text → Event → Action Answer
  issue_in actor attendee event = do
    legacy_hold
    seal ← available
    refuse (is_disabled event.admission_policy) (error 409 (codes "PASSES_DISABLED"))
    eligible ← query (is_eligible attendee event.id)
    refuse (not eligible) (error 409 (codes "NOT_CONFIRMED"))
    existing ←
        query (λ db. find? (λ p. same p.attendee_id attendee && same p.event_id event.id) db.passes)
    issue_over actor attendee event.id existing

  -- `issue(actor, id, attendeeId, eventId, key)`
  unfoldable pub issue : Text → Text → Text → Text → Action Answer
  issue actor attendee event_id key =
      let name = codes "pass-issue:" ++ event_id in
      let body = some attendee ∷ some event_id ∷ [] in
      transaction (do
        owner_only actor
        event ← event_row event_id
        previous ← operation ports actor name key body
        once previous (do
          result ← issue_in actor attendee event
          update (add_result ports actor name key body result)
          pure result))
