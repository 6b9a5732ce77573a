-- ===== src/Platform/Admission/Scan.antt =====
-- The transaction around the judgement of a scan: capability, holds, the answer under a key that
-- was used before, the row of the scan, and the commit of the ledger after it. The rest of `redeem`
-- of packages/persistence/src/passes.ts.
use save_the_date.Base.{
  Bool, true, false, not, ◌&&◌, Option, none, some, ◌∷◌, ◌++◌, Text, codes, same, any, find?,
  or_else, if◌then◌else◌, ◌>>=◌, ◌>>◌, pure,
}
use save_the_date.Platform.Capability.{scan}
use save_the_date.Platform.Admission.Model.{
  Db, Action, Event, ScanState, admitted, already_used, scan_disabled, window_required,
  outside_window, scan_revoked, not_confirmed, invalid, ScanOutcome, ScanOperation, LedgerRecord,
  committed, Ports, Circumstances,
}
use save_the_date.Platform.Admission.Guards.{
  error, query, update, transaction, refuse, require_tenant, legacy_hold, event_row, recorded,
  write_ledger,
}
use save_the_date.Platform.Admission.Redeem.{Verdict, judge, is_committed}

abbrev pub is_admitted : ScanState → Bool
is_admitted admitted = true
is_admitted _ = false

-- The text of a state, as it is stored and audited
pub state_text : ScanState → Text
state_text admitted = codes "admitted"
state_text already_used = codes "already_used"
state_text scan_disabled = codes "disabled"
state_text window_required = codes "window_required"
state_text outside_window = codes "outside_window"
state_text scan_revoked = codes "revoked"
state_text not_confirmed = codes "not_confirmed"
state_text invalid = codes "invalid"

unfoldable pub add_scan : ScanOperation → Db → Db
add_scan o db = record db {
  scan_operations = o ∷ db.scan_operations;
  audits =
      record {
        actor_id = some o.actor_id;
        action = codes "scan." ++ state_text o.outcome.state;
        resource_id = or_else o.pass_id o.event_id;
        reason = none;
      }
      ∷ db.audits;
}

module _ (ports : Ports) (c : Circumstances) (actor event_id input key : Text) where
  -- `recorded?.state === 'intent' && recorded.operationKey === key && …`
  unfoldable pub own_intent : Option LedgerRecord → Option LedgerRecord
  own_intent none = none
  own_intent (some r) =
      if not (is_committed r.state) && same r.operation_key key && same r.actor_id actor
      then some r
      else none

  unfoldable pub open_intent : ScanState → Option Text → Action (Option LedgerRecord)
  open_intent state none = pure none
  open_intent state (some p) =
      if is_admitted state then (do r ← recorded c p; pure (own_intent r)) else pure none

  -- The answer that was given under the key before
  unfoldable pub replay : ScanOperation → Action Verdict
  replay o = do
    refuse (not (any (same o.request_hash) (ports.candidates (codes "scan-operation:" ++ input))))
        (error 409 (codes "IDEMPOTENCY_CONFLICT"))
    r ← open_intent o.outcome.state o.pass_id
    pure (record { outcome = o.outcome; pass_id = o.pass_id; to_commit = r })

  -- `insert into std_scan_operations`, and the audit event
  unfoldable pub record_scan : Verdict → Action (Unit {0})
  record_scan v = update (
      add_scan (record {
        event_id = event_id;
        actor_id = actor;
        operation_key = key;
        request_hash = ports.hash (codes "scan-operation:" ++ input);
        outcome = v.outcome;
        pass_id = v.pass_id;
      }))

  unfoldable pub decide : Event → Option ScanOperation → Action Verdict
  decide e (some o) = replay o
  decide e none = do v ← judge ports c actor event_id input key e; record_scan v; pure v

  -- What every scan passes first: the capability, the holds, and the row of the event
  unfoldable pub gate : Action Event
  gate = do
    require_tenant actor scan (some event_id)
    legacy_hold
    held ← query (λ db. any (same (codes "open")) db.recovery_holds)
    refuse held (error 503 (codes "ADMISSION_RECOVERY_HOLD"))
    event_row event_id

  -- The row of an earlier scan under the key
  unfoldable pub is_same_scan : ScanOperation → Bool
  is_same_scan o = same o.actor_id actor && same o.event_id event_id && same o.operation_key key

  -- The closure that `redeem` hands to `transaction`
  unfoldable pub scan_once : Action Verdict
  scan_once = do e ← gate; o ← query (λ db. find? is_same_scan db.scan_operations); decide e o

  -- `if (ledgerRecord && admissionLedger) try { write({…ledgerRecord, state: 'committed'}) } …`
  unfoldable pub commit : Option LedgerRecord → Action (Unit {0})
  commit none = pure tt
  commit (some r) = write_ledger c.commit_write (record r { state = committed })

  unfoldable pub redeem_lowered : Action ScanOutcome
  redeem_lowered = do v ← transaction scan_once; commit v.to_commit; pure v.outcome

-- `redeem(actor, id, eventId, input, key)`
unfoldable pub redeem : Ports → Circumstances → Text → Text → Text → Text → Action ScanOutcome
redeem ports c actor event_id input key =
    redeem_lowered ports c actor (ports.lower event_id) input (ports.lower key)
