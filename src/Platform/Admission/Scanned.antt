-- ===== src/Platform/Admission/Scanned.antt =====
-- Lemmas on the row that a scan records under its key (passes.ts).
use save_the_date.Base.{
  ◌≡◌, refl, sym, ◌∙◌, true, Option, none, some, ◌++◌, Text, codes, same, same_refl, any, find?,
  Outcome, returned, thrown, resume, ◌>>◌, pure, Bool-cases, inl, inr, Option-cases,
}
use save_the_date.Platform.Capability.{DomainError}
use save_the_date.Platform.Admission.Model.{
  Db, World, Event, ScanState, ScanOutcome, ScanOperation, LedgerRecord, Ports, Circumstances,
  written,
}
use save_the_date.Platform.Admission.Guards.{update, refuse, recorded, write_ledger}
use save_the_date.Platform.Admission.Redeem.{Verdict, judge}
use save_the_date.Platform.Admission.Scan.{
  add_scan, open_intent, replay, is_admitted, own_intent, record_scan, decide, is_same_scan, commit,
}
use save_the_date.Platform.Admission.Gate.{frame}
use save_the_date.Platform.Admission.Judging.{Leaves-judge, Leaves-replay}

module _ (ports : Ports) (c : Circumstances) (actor event_id input key : Text) where
  -- The text of the scan fits the hash of the earlier one.
  abbrev pub Known : ScanOperation → Type 0
  Known o = any (same o.request_hash) (ports.candidates (codes "scan-operation:" ++ input)) ≡ true

  replay_end :
      (o : ScanOperation) (v : Verdict) (r : Outcome DomainError (Option LedgerRecord)) (w : World)
      → (resume
          (λ r. pure (record { outcome = o.outcome; pass_id = o.pass_id; to_commit = r }))
          r
          w).0
        ≡ returned v
      → v.outcome ≡ o.outcome
  replay_end o v (returned r) w e = cc
  replay_end o v (thrown x) w e = cc

  -- A replay that returns knows the text, and answers as before.
  replay-returned :
      (o : ScanOperation) (w : World) (v : Verdict)
      → (replay ports c actor event_id input key o w).0 ≡ returned v
      → Known o × (v.outcome ≡ o.outcome)
  unfolding replay refuse
  replay-returned o w v e =
      elim (Bool-cases
        (any (same o.request_hash) (ports.candidates (codes "scan-operation:" ++ input)))) [
          | inl known ↦ (known, replay_end o v _ _ (rw known at e))
          | inr other ↦ let refused : thrown _ ≡ returned v = rw other at e in cc
        ]

  recorded-returns :
      (p : Text) (w : World)
      → c.ledger_readable ≡ true
      → (r : Option LedgerRecord) × (recorded c p w ≡ (returned r, w))
  unfolding recorded
  recorded-returns p w ok = elim (Option-cases w.ledger) [
    | inl absent ↦ (none, rw absent refl)
    | inr (rows, present) ↦ (find? (λ r. same r.pass_id p) rows, rw (present, ok) refl)
  ]

  open_intent-returns :
      (s : ScanState) (o : Option Text) (w : World)
      → c.ledger_readable ≡ true
      → (r : Option LedgerRecord) × (open_intent ports c actor event_id input key s o w
          ≡ (returned r, w))
  unfolding open_intent
  open_intent-returns s none w ok = (none, refl)
  open_intent-returns s (some p) w ok = elim (Bool-cases (is_admitted s)) [
    | inl was_admitted ↦
        let (r, read) = recorded-returns p w ok in
        (own_intent ports c actor event_id input key r, rw (was_admitted, read) refl)
    | inr was_refused ↦ (none, rw was_refused refl)
  ]

  pub commit-returns :
      (o : Option LedgerRecord) (w : World)
      → c.commit_write ≡ written
      → (commit ports c actor event_id input key o w).0 ≡ returned tt
  unfolding commit write_ledger
  commit-returns none w ok = refl
  commit-returns (some r) w ok = elim (Option-cases w.ledger) [
    | inl absent ↦ rw absent refl
    | inr (rows, present) ↦ rw (present, ok) refl
  ]

  -- A replay of a known text returns, and changes nothing.
  pub replay-returns :
      (o : ScanOperation) (w : World)
      → Known o
      → c.ledger_readable ≡ true
      → (v : Verdict) × (replay ports c actor event_id input key o w ≡ (returned v, w))
        × (v.outcome ≡ o.outcome)
  unfolding replay refuse
  replay-returns o w known ok =
      let (r, read) = open_intent-returns o.outcome.state o.pass_id w ok in
      (
        record { outcome = o.outcome; pass_id = o.pass_id; to_commit = r },
        rw (known, read) refl,
        refl,
      )

  -- What a scan leaves behind under its key
  abbrev pub Scanned : Db → ScanOutcome → Type 0
  Scanned db outcome =
      (o : ScanOperation) × (find? (is_same_scan ports c actor event_id input key)
          db.scan_operations
        ≡ some o)
      × Known o
      × (o.outcome ≡ outcome)

  record-Scanned :
      (v : Verdict) (r : Outcome DomainError Verdict) (w : World)
      → ((s : Text) → any (same (ports.hash s)) (ports.candidates s) ≡ true)
      → (resume (λ v. record_scan ports c actor event_id input key v >> pure v) r w).0 ≡ returned v
      → Scanned
          (resume (λ v. record_scan ports c actor event_id input key v >> pure v) r w).1.db
          v.outcome
        × (frame (resume (λ v. record_scan ports c actor event_id input key v >> pure v) r w).1.db
            ≡ frame w.db)
  unfolding record_scan add_scan update is_same_scan
  record-Scanned v (thrown x) w fits e = cc
  record-Scanned v (returned u) w fits e = (
    (
      record {
        event_id = event_id;
        actor_id = actor;
        operation_key = key;
        request_hash = ports.hash (codes "scan-operation:" ++ input);
        outcome = u.outcome;
        pass_id = u.pass_id;
      },
      rw (same_refl actor, same_refl event_id, same_refl key) refl,
      fits (codes "scan-operation:" ++ input),
      cc e,
    ),
    refl,
  )

  pub decide-Scanned :
      (e : Event) (o : Option ScanOperation) (w : World) (v : Verdict)
      → ((s : Text) → any (same (ports.hash s)) (ports.candidates s) ≡ true)
      → find? (is_same_scan ports c actor event_id input key) w.db.scan_operations ≡ o
      → (decide ports c actor event_id input key e o w).0 ≡ returned v
      → Scanned (decide ports c actor event_id input key e o w).1.db v.outcome
        × (frame (decide ports c actor event_id input key e o w).1.db ≡ frame w.db)
  unfolding decide
  decide-Scanned e (some o) w v fits found r =
      let (known, same_outcome) = replay-returned o w v r in
      let kept =
        (Leaves-replay ports c actor event_id input key
            {f = λ db. find? (is_same_scan ports c actor event_id input key) db.scan_operations}
            o).leaves
          w in
      (
        (o, kept ∙ found, known, sym same_outcome),
        (Leaves-replay ports c actor event_id input key {f = frame} o).leaves w,
      )
  decide-Scanned e none w v fits found r =
      let judged = judge ports c actor event_id input key e w in
      let (scanned, kept) = record-Scanned v judged.0 judged.1 fits r in
      (scanned, kept ∙ (Leaves-judge ports c actor event_id input key e).leaves w)
