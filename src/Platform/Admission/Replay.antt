-- ===== src/Platform/Admission/Replay.antt =====
-- Lemmas on a scan that is sent again under its key (redeemPlatformPass of passes.ts).
use save_the_date.Base.{
  ◌≡◌, refl, sym, ap, subst, ◌∙◌, true, some, Text, same, any, find?, Outcome, returned, thrown,
  ◌>>=◌, ◌>>◌, pure,
}
use save_the_date.Platform.Capability.{DomainError}
use save_the_date.Platform.Admission.Model.{
  Db, World, Action, Event, ScanOutcome, ScanOperation, Ports, Circumstances, written,
}
use save_the_date.Platform.Admission.Guards.{query, settle, transaction}
use save_the_date.Platform.Admission.Redeem.{Verdict}
use save_the_date.Platform.Admission.Scan.{
  decide, gate, is_same_scan, scan_once, commit, redeem_lowered, redeem,
}
use save_the_date.Platform.Admission.Leaves.{bind-returned, bind_step}
use save_the_date.Platform.Admission.Gate.{frame, Reads-gate}
use save_the_date.Platform.Admission.Judging.{Leaves-commit}
use save_the_date.Platform.Admission.Scanned.{
  Known, Scanned, replay-returns, commit-returns, decide-Scanned,
}

module _ (ports : Ports) (c : Circumstances) (actor event_id input key : Text) where
  -- Past the gate, a scan is the decision on the row under its key.
  scan_step :
      (w : World) (e : Event)
      → (gate ports c actor event_id input key w).0 ≡ returned e
      → scan_once ports c actor event_id input key w
        ≡ decide ports c actor event_id input key e
            (find? (is_same_scan ports c actor event_id input key) w.db.scan_operations)
            w
  unfolding scan_once query
  scan_step w e passed =
      let rest : Event → Action Verdict = λ e. (do
        o ← query (λ db. find? (is_same_scan ports c actor event_id input key) db.scan_operations)
        decide ports c actor event_id input key e o) in
      bind_step (gate ports c actor event_id input key) rest w e passed
      ∙ ap (rest e) ((Reads-gate ports c actor event_id input key).unchanged w)

  -- What a scan that returns leaves behind: its row, and all that the gate reads.
  scan_once-Scanned :
      (w : World) (v : Verdict)
      → ((s : Text) → any (same (ports.hash s)) (ports.candidates s) ≡ true)
      → (scan_once ports c actor event_id input key w).0 ≡ returned v
      → Scanned ports c actor event_id input key
          (scan_once ports c actor event_id input key w).1.db
          v.outcome
        × (frame (scan_once ports c actor event_id input key w).1.db ≡ frame w.db)
        × ((e : Event) × ((gate ports c actor event_id input key w).0 ≡ returned e))
  unfolding scan_once
  scan_once-Scanned w v fits r =
      let (e, passed) = bind-returned (gate ports c actor event_id input key) _ w v r in
      let step = scan_step w e passed in
      let (scanned, kept) =
        decide-Scanned ports c actor event_id input key e
          (find? (is_same_scan ports c actor event_id input key) w.db.scan_operations) w v fits refl
          (ap (λ x. x.0) (sym step) ∙ r) in
      (
        subst (λ x. Scanned ports c actor event_id input key x.1.db v.outcome) (sym step) scanned,
        subst (λ x. frame x.1.db ≡ frame w.db) (sym step) kept,
        (e, passed),
      )

  commit_end :
      (v : Verdict) (w : World)
      → c.commit_write ≡ written
      → let after : Action ScanOutcome = (do
        commit ports c actor event_id input key v.to_commit
        pure v.outcome) in
        ((after w).0 ≡ returned v.outcome) × ((after w).1.db ≡ w.db)
  commit_end v w done =
      let committing = commit ports c actor event_id input key v.to_commit in
      let step =
        bind_step committing (λ _. pure v.outcome) w tt
          (commit-returns ports c actor event_id input key v.to_commit w done) in
      (
        ap (λ x. x.0) step,
        ap (λ x. x.1.db) step
            ∙ (Leaves-commit ports c actor event_id input key {f = λ db. db} v.to_commit).leaves w,
      )

  after-returned :
      (v : Verdict) (w : World) (outcome : ScanOutcome)
      → let after : Action ScanOutcome = (do
        commit ports c actor event_id input key v.to_commit
        pure v.outcome) in
        (after w).0 ≡ returned outcome → (v.outcome ≡ outcome) × ((after w).1.db ≡ w.db)
  after-returned v w outcome e =
      let committing = commit ports c actor event_id input key v.to_commit in
      let (u, done) = bind-returned committing (λ _. pure v.outcome) w outcome e in
      let step = bind_step committing (λ _. pure v.outcome) w u done in
      let same_answer : returned v.outcome ≡ returned outcome = ap (λ x. x.0) (sym step) ∙ e in
      (
        cc same_answer,
        ap (λ x. x.1.db) step
            ∙ (Leaves-commit ports c actor event_id input key {f = λ db. db} v.to_commit).leaves w,
      )

  -- Where the row of an earlier scan stands under the key, the scan answers as it did, and changes
  -- nothing in the database.
  redeem_again :
      (w : World) (o : ScanOperation) (e : Event)
      → (gate ports c actor event_id input key w).0 ≡ returned e
      → find? (is_same_scan ports c actor event_id input key) w.db.scan_operations ≡ some o
      → Known ports c actor event_id input key o
      → c.ledger_readable ≡ true
      → c.commit_write ≡ written
      → ((redeem_lowered ports c actor event_id input key w).0 ≡ returned o.outcome)
        × ((redeem_lowered ports c actor event_id input key w).1.db ≡ w.db)
  unfolding redeem_lowered transaction settle decide
  redeem_again w o e passed found known ok done =
      let (v, replayed, same_outcome) =
        replay-returns ports c actor event_id input key o w known ok in
      let step : scan_once ports c actor event_id input key w ≡ (returned v, w) =
        scan_step w e passed
        ∙ ap (λ q. decide ports c actor event_id input key e q w) found
        ∙ replayed in
      let (answered, kept) = commit_end v w done in
      rw step (answered ∙ ap returned same_outcome, kept)

  settle-returned :
      (before : Db) (r : Outcome DomainError Verdict) (x : World) (v : Verdict)
      → (settle before (r, x)).0 ≡ returned v
      → (r ≡ returned v) × (settle before (r, x) ≡ (r, x))
  unfolding settle
  settle-returned before (returned u) x v e = (e, refl)
  settle-returned before (thrown u) x v e = cc

  -- A redemption that returns is a scan that returned, with its rows.
  redeem-returned :
      (w : World) (outcome : ScanOutcome)
      → (redeem_lowered ports c actor event_id input key w).0 ≡ returned outcome
      → (v : Verdict) × ((scan_once ports c actor event_id input key w).0 ≡ returned v)
        × (v.outcome ≡ outcome)
        × ((redeem_lowered ports c actor event_id input key w).1.db
            ≡ (scan_once ports c actor event_id input key w).1.db)
  unfolding redeem_lowered transaction
  redeem-returned w outcome e =
      let scanning = scan_once ports c actor event_id input key in
      let after : Verdict → Action ScanOutcome =
        λ v. (do commit ports c actor event_id input key v.to_commit; pure v.outcome) in
      let (v, settled) = bind-returned (transaction scanning) after w outcome e in
      let (r, same_end) = settle-returned w.db (scanning w).0 (scanning w).1 v settled in
      let step : redeem_lowered ports c actor event_id input key w ≡ after v (scanning w).1 =
        bind_step (transaction scanning) after w v settled ∙ ap (λ x. after v x.1) same_end in
      let (same_outcome, kept) =
        after-returned v (scanning w).1 outcome (ap (λ x. x.0) (sym step) ∙ e) in
      (v, r, same_outcome, ap (λ x. x.1.db) step ∙ kept)

-- Where a hash is among the candidates of its text: a scan that was answered, sent again under the
-- same key by the same actor after it, is answered the same and changes nothing in the database,
-- whatever the clock says by then, as long as the ledger can be read and written.
pub redeem_twice :
    (ports : Ports)
    → ((s : Text) → any (same (ports.hash s)) (ports.candidates s) ≡ true)
    → (c c' : Circumstances) (actor event_id input key : Text) (w : World) (outcome : ScanOutcome)
    → (redeem ports c actor event_id input key w).0 ≡ returned outcome
    → c'.ledger_readable ≡ true
    → c'.commit_write ≡ written
    → let again =
        redeem ports c' actor event_id input key (redeem ports c actor event_id input key w).1 in
      (again.0 ≡ returned outcome) × (again.1.db ≡ (redeem ports c actor event_id input key w).1.db)
unfolding redeem gate is_same_scan
redeem_twice ports fits c c' actor event_id input key w outcome answered ok done =
    let ev = ports.lower event_id in
    let k = ports.lower key in
    let before = (redeem_lowered ports c actor ev input k w).1 in
    let (v, scanned, same_outcome, same_db) =
      redeem-returned ports c actor ev input k w outcome answered in
    let ((o, found, known, was), kept, (e, passed)) =
      scan_once-Scanned ports c actor ev input k w v fits scanned in
    let passed_again : (gate ports c' actor ev input k before).0 ≡ returned e =
      (Reads-gate ports c' actor ev input k).same_answer before w (ap frame same_db ∙ kept)
      ∙ passed in
    let found_again : find? (is_same_scan ports c' actor ev input k) before.db.scan_operations
        ≡ some o =
      ap (λ db. find? (is_same_scan ports c' actor ev input k) db.scan_operations) same_db
      ∙ found in
    let (again, unchanged) =
      redeem_again ports c' actor ev input k before o e passed_again found_again known ok done in
    (again ∙ ap returned (was ∙ same_outcome), unchanged)
