-- ===== src/Platform/Admission/Admitting.antt =====
-- A scan, followed through its guards to the pass that it admits.
use save_the_date.Base.{
  ℕ, ◌≡◌, refl, true, Option, none, some, List, [], ◌∷◌, Text, any, All-every, ◌||◌, same,
  update_where, Bool-cases, inl, inr, arith,
}
use save_the_date.Platform.Admission.Model.{
  Admission, Pass, active, Event, Attendee, ScanState, Window, ScanOperation, LedgerRecord, Ports,
  Circumstances,
}
use save_the_date.Platform.Admission.Guards.{query, update, refuse, add_metric}
use save_the_date.Platform.Admission.Redeem.{
  Verdict, admissible, as_used, append_admission, insert_admission, use_pass, take_in, admit,
  judge_active, judge_pass, judge_window, judge_event, judge,
}
use save_the_date.Platform.Admission.Scan.{
  add_scan, open_intent, replay, record_scan, decide, gate, scan_once, commit, redeem_lowered,
  redeem,
}
use save_the_date.Platform.Admission.Life.{
  active_of, to_used, Moved, view, has_used, Stepped-refl, Stepped-update_where,
}
use save_the_date.Platform.Admission.Effects.{
  Keeps, Safe, Safe-bind, Safe-then, Safe-Keeps, Safe-if, Safe-transaction, Keeps-update,
}
use save_the_date.Platform.Admission.Steady.{guarding, Keeps-add_history}

as_used-Moved :
    (i : Text) (at : ℕ) (actor : Text) (p : Pass)
    → admissible i p ≡ true
    → Moved p (as_used at actor p)
unfolding admissible as_used
as_used-Moved i at actor p h =
    let live : p.status ≡ active = active_of p.status (ground arith) in
    rw live (to_used, refl, refl, refl, refl)

used_after :
    (i : Text) (at : ℕ) (actor : Text) (ps : List Pass)
    → any (admissible i) ps ≡ true
    → has_used i (update_where (admissible i) (as_used at actor) ps) ≡ true
unfolding admissible as_used
used_after i at actor [] h = h
used_after i at actor (p ∷ ps) h = ground (arith, used_after i at actor ps)

Safe-take_in : (a : Admission) (at : ℕ) → Safe (take_in a at)
unfolding take_in use_pass insert_admission query refuse update append_admission as_used admissible
Safe-take_in a at = record {
  steps = λ w wf.
      let (kept, evolved) =
        Stepped-update_where (admissible a.pass_id) (as_used at a.actor_id) (view w) (λ p. refl)
          (λ p. refl) (All-every (as_used-Moved a.pass_id at a.actor_id) w.db.passes) wf in
      elim (Bool-cases (any (admissible a.pass_id) w.db.passes)) [
        | inl hit ↦
            elim (Bool-cases (
              any (λ (b : Admission). same b.id a.id || same b.pass_id a.pass_id)
                w.db.admissions)) [
                  | inl clash ↦ rw (hit, clash) (kept, evolved, inl refl)
                  | inr free ↦
                      rw (hit, free)
                        (
                          kept,
                          evolved,
                          inr (a, refl, hit, used_after a.pass_id at a.actor_id w.db.passes hit),
                        )
                ]
        | inr miss ↦ rw miss (Stepped-refl (view w) wf)
      ];
}

module _ (ports : Ports) (c : Circumstances) (actor event_id input key : Text) where
  Keeps-add_metric : (k : Text) → Keeps (update (add_metric k))
  unfolding add_metric
  Keeps-add_metric k = Keeps-update _ (λ db. refl)

  Safe-admit : (p : Pass) (a : Attendee) → Safe (admit ports c actor event_id input key p a)
  unfolding admit
  Safe-admit p a =
      search (guarding, Safe-bind, Safe-then, Safe-take_in, Keeps-add_history, Keeps-add_metric)
        depth 10

  Safe-judge_active :
      (p : Pass) (a : Attendee) → Safe (judge_active ports c actor event_id input key p a)
  unfolding judge_active
  Safe-judge_active p a = search (guarding, Safe-bind, Safe-if, Safe-Keeps, Safe-admit) depth 6

  Safe-judge_pass :
      (o : Option (Pass × Attendee)) → Safe (judge_pass ports c actor event_id input key o)
  unfolding judge_pass
  Safe-judge_pass none = search (guarding, Safe-Keeps)
  Safe-judge_pass (some (p, a)) = search (guarding, Safe-if, Safe-Keeps, Safe-judge_active) depth 7

  Safe-judge_window : (o : Option Window) → Safe (judge_window ports c actor event_id input key o)
  unfolding judge_window
  Safe-judge_window none = search (guarding, Safe-Keeps)
  Safe-judge_window (some w) =
      search (guarding, Safe-if, Safe-bind, Safe-Keeps, Safe-judge_pass) depth 7

  Safe-judge_event :
      (e : Event) (o : Option (Pass × Attendee))
      → Safe (judge_event ports c actor event_id input key e o)
  unfolding judge_event
  Safe-judge_event e (some (p, a)) = search (guarding, Safe-Keeps)
  Safe-judge_event e none = search (guarding, Safe-if, Safe-Keeps, Safe-judge_window)

  Safe-judge : (e : Event) → Safe (judge ports c actor event_id input key e)
  unfolding judge
  Safe-judge e = search (guarding, Safe-bind, Safe-judge_event)

  Keeps-open_intent :
      (s : ScanState) (o : Option Text) → Keeps (open_intent ports c actor event_id input key s o)
  unfolding open_intent
  Keeps-open_intent s none = search guarding
  Keeps-open_intent s (some p) = search guarding

  Keeps-replay : (o : ScanOperation) → Keeps (replay ports c actor event_id input key o)
  unfolding replay
  Keeps-replay o = search (guarding, Keeps-open_intent)

  Keeps-record_scan : (v : Verdict) → Keeps (record_scan ports c actor event_id input key v)
  unfolding record_scan add_scan
  Keeps-record_scan v = Keeps-update _ (λ db. refl)

  Safe-decide :
      (e : Event) (o : Option ScanOperation) → Safe (decide ports c actor event_id input key e o)
  unfolding decide
  Safe-decide e (some o) = Safe-Keeps (Keeps-replay o)
  Safe-decide e none = search (guarding, Safe-then, Safe-judge, Keeps-record_scan) depth 6

  Keeps-gate : Keeps (gate ports c actor event_id input key)
  unfolding gate
  Keeps-gate = search guarding depth 7

  Safe-scan_once : Safe (scan_once ports c actor event_id input key)
  unfolding scan_once
  Safe-scan_once = search (guarding, Keeps-gate, Safe-bind, Safe-decide) depth 6

  Keeps-commit : (o : Option LedgerRecord) → Keeps (commit ports c actor event_id input key o)
  unfolding commit
  Keeps-commit none = search guarding
  Keeps-commit (some r) = search guarding

  Safe-redeem_lowered : Safe (redeem_lowered ports c actor event_id input key)
  unfolding redeem_lowered
  Safe-redeem_lowered =
      search (guarding, Safe-transaction, Safe-then, Safe-scan_once, Keeps-commit) depth 7

pub Safe-redeem :
    (ports : Ports) (c : Circumstances) (actor event_id input key : Text)
    → Safe (redeem ports c actor event_id input key)
unfolding redeem
Safe-redeem ports c actor event_id input key =
    Safe-redeem_lowered ports c actor (ports.lower event_id) input (ports.lower key)
