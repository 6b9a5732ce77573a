-- ===== src/Platform/Admission/Redeem.antt =====
-- Admitting a guest at the door: `redeem` of packages/persistence/src/passes.ts. The scan is one
-- transaction; the ledger is written in it, and once more after it.
use save_the_date.Base.{
  ℕ, suc, Bool, true, false, not, ◌&&◌, ◌||◌, Option, none, some, List, [], ◌∷◌, ◌++◌, Text, codes,
  same, is_some, any, find?, update_where, drop, if◌then◌else◌, leb, ltb, ◌>>=◌, ◌>>◌, pure, ◌==◌,
}
use save_the_date.Platform.Admission.Model.{
  Db, Action, Pass, PassStatus, used, Event, Attendee, Window, Admission, ScanState, admitted,
  already_used, scan_disabled, window_required, outside_window, scan_revoked, not_confirmed,
  invalid, ScanOutcome, LedgerRecord, LedgerState, intent, committed, Ports, Circumstances,
  admission_window,
}
use save_the_date.Platform.Admission.Guards.{
  error, query, update, refuse, add_history, add_metric, recorded, write_ledger,
}
use save_the_date.Platform.Admission.Passes.{is_active, is_disabled, rsvp_confirmed, without_dashes}

-- The value of the closure: the outcome, the pass that it is about, and the ledger record to commit
pub record Verdict : Type 0 where
  pub outcome : ScanOutcome
  pub pass_id : Option Text
  pub to_commit : Option LedgerRecord

-- An outcome without a pass
abbrev pub plain : ScanState → Verdict
plain s = record {
  outcome = record { state = s; name = none; used_at = none };
  pass_id = none;
  to_commit = none;
}

-- An outcome that names the pass
abbrev pub about : ScanState → Pass → Verdict
about s p = record {
  outcome = record { state = s; name = none; used_at = none };
  pass_id = some p.id;
  to_commit = none;
}

abbrev pub seen_before : Pass → Attendee → Verdict
seen_before p a = record {
  outcome = record { state = already_used; name = some a.name; used_at = p.used_at };
  pass_id = some p.id;
  to_commit = none;
}

-- `startsWith`
unfoldable pub starts_with : Text → Text → Bool
starts_with [] s = true
starts_with (c ∷ prefix) [] = false
starts_with (c ∷ prefix) (d ∷ s) = c == d && starts_with prefix s

abbrev pub is_used_status : PassStatus → Bool
is_used_status used = true
is_used_status _ = false

unfoldable pub attendee_of : Db → Pass → Option Attendee
attendee_of db p = find? (λ (a : Attendee). same a.id p.attendee_id) db.attendees

unfoldable pub with_attendee : Db → Option Pass → Option (Pass × Attendee)
with_attendee db none = none
with_attendee db (some p) = elim (attendee_of db p) [ none ↦ none | some a ↦ some (p, a) ]

-- One of the hashes is the credential's or the manual code's, at this event.
unfoldable pub fits : List Text → Text → Pass → Bool
fits hashes event_id p =
    same p.event_id event_id
    && (any (same p.credential_hash) hashes || any (same p.manual_hash) hashes)

-- The pass that a scan finds, joined with its attendee
unfoldable pub find_pass : (Pass → Bool) → Db → Option (Pass × Attendee)
find_pass test db = with_attendee db (find? (λ p. test p && is_some (attendee_of db p)) db.passes)

unfoldable pub as_used : ℕ → Text → Pass → Pass
as_used at actor p = record p {
  status = used;
  used_at = some at;
  used_by = some actor;
  encrypted_payload = none;
  version = suc p.version;
}

-- The `where` clause of the update that admits
unfoldable pub admissible : Text → Pass → Bool
admissible pass_id p = same p.id pass_id && is_active p.status

-- `previous && (previous.operationKey !== key || …)`
unfoldable pub is_foreign : Text → Text → ℕ → LedgerRecord → Bool
is_foreign key actor version r =
    not (same r.operation_key key) || not (same r.actor_id actor) || not (r.pass_version == version)

abbrev pub is_committed : LedgerState → Bool
is_committed committed = true
is_committed intent = false

-- What stands in the ledger keeps this attempt back.
unfoldable pub is_held_back : Text → Text → ℕ → Option LedgerRecord → Bool
is_held_back key actor version none = false
is_held_back key actor version (some r) = is_committed r.state || is_foreign key actor version r

abbrev pub admission_of : Text → Option LedgerRecord → Text
admission_of fresh none = fresh
admission_of fresh (some r) = r.admission_id

unfoldable pub append_admission : Admission → Db → Db
append_admission a db = record db { admissions = db.admissions ++ a ∷ [] }

-- `insert into std_admissions`: its id and its pass are unique.
unfoldable pub insert_admission : Admission → Action (Unit {0})
insert_admission a = do
  clash ←
      query
        (λ db. any (λ (b : Admission). same b.id a.id || same b.pass_id a.pass_id) db.admissions)
  refuse clash (error 409 (codes "CONFLICT"))
  update (append_admission a)

-- The update of the row that admits: `PASS_STATE_CONFLICT` where it hits none
unfoldable pub use_pass : Text → ℕ → Text → Action (Unit {0})
use_pass pass_id at actor = do
  hit ← query (λ db. any (admissible pass_id) db.passes)
  refuse (not hit) (error 409 (codes "PASS_STATE_CONFLICT"))
  update
      (λ db. record db { passes = update_where (admissible pass_id) (as_used at actor) db.passes })

-- The two writes that admit: the row of the pass, and the row of the admission
unfoldable pub take_in : Admission → ℕ → Action (Unit {0})
take_in a at = do use_pass a.pass_id at a.actor_id; insert_admission a

module _ (ports : Ports) (c : Circumstances) (actor event_id input key : Text) where
  unfoldable pub lookup : Text
  lookup =
      if starts_with (codes "std-admission:v1:") input
      then drop 17 input
      else without_dashes (ports.upper input)

  unfoldable pub scanned_hashes : List Text
  scanned_hashes = ports.candidates (codes "admission:" ++ lookup)

  unfoldable pub intent_of : Pass → Option LedgerRecord → LedgerRecord
  intent_of p previous = record {
    state = intent;
    pass_id = p.id;
    event_id = event_id;
    attendee_id = p.attendee_id;
    admission_id = admission_of c.fresh_id previous;
    actor_id = actor;
    operation_key = key;
    pass_version = p.version;
    recorded_at = c.now;
  }

  -- The branch of an active pass of a confirmed attendee
  unfoldable pub admit : Pass → Attendee → Action Verdict
  admit p a = do
    previous ← recorded c p.id
    refuse (is_held_back key actor p.version previous) (error 409 (codes "ADMISSION_RECOVERY_HOLD"))
    write_ledger c.intent_write (intent_of p previous)
    take_in
        (record {
          id = admission_of c.fresh_id previous;
          pass_id = p.id;
          event_id = event_id;
          attendee_id = p.attendee_id;
          actor_id = actor;
        })
        c.written_at
    update (add_history p.id (codes "used") (some actor) none)
    update (add_metric (codes "admission:" ++ p.id))
    pure (record {
      outcome = record { state = admitted; name = some a.name; used_at = some c.written_at };
      pass_id = some p.id;
      to_commit = some (record (intent_of p previous) { recorded_at = c.written_at });
    })

  unfoldable pub judge_active : Pass → Attendee → Action Verdict
  judge_active p a = do
    ok ← query (rsvp_confirmed p.attendee_id event_id)
    if ok then admit p a else pure (about not_confirmed p)

  -- The chain on the status of the pass that was found
  unfoldable pub judge_pass : Option (Pass × Attendee) → Action Verdict
  judge_pass none = pure (plain invalid)
  judge_pass (some (p, a)) =
      if is_some a.deleted_at
      then pure (plain invalid)
      else if is_used_status p.status
      then pure (seen_before p a)
      else if not (is_active p.status)
      then pure (about scan_revoked p)
      else judge_active p a

  -- The window of the event, and the pass inside it
  unfoldable pub judge_window : Option Window → Action Verdict
  judge_window none = pure (plain window_required)
  judge_window (some w) =
      if ltb c.now w.start || leb w.finish c.now
      then pure (plain outside_window)
      else (do row ← query (find_pass (fits scanned_hashes event_id)); judge_pass row)

  -- A used pass is reported before anything else.
  unfoldable pub judge_event : Event → Option (Pass × Attendee) → Action Verdict
  judge_event e (some (p, a)) = pure (seen_before p a)
  judge_event e none =
      if is_disabled e.admission_policy
      then pure (plain scan_disabled)
      else judge_window (admission_window e)

  unfoldable pub judge : Event → Action Verdict
  judge e = do
    row ← query (find_pass (λ p. fits scanned_hashes event_id p && is_used_status p.status))
    judge_event e row
