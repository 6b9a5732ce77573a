-- ===== src/Platform/Admission/Judging.antt =====
-- What a judgement, a replay and the commit of the ledger leave alone (passes.ts).
use save_the_date.Base.{ℕ, Option, none, some, Text}
use save_the_date.Platform.Admission.Model.{
  Db, Admission, Event, Attendee, Pass, Window, ScanState, ScanOperation, LedgerRecord, Ports,
  Circumstances,
}
use save_the_date.Platform.Admission.Guards.{add_history, add_metric}
use save_the_date.Platform.Admission.Redeem.{
  append_admission, insert_admission, use_pass, take_in, admit, judge_active, judge_pass,
  judge_window, judge_event, judge,
}
use save_the_date.Platform.Admission.Scan.{open_intent, replay, commit}
use save_the_date.Platform.Admission.Leaves.{Leaves, Leaves-update, leaving}
use save_the_date.Platform.Admission.Gate.{frame}

Leaves-take_in : (a : Admission) (at : ℕ) → Leaves frame (take_in a at)
unfolding take_in use_pass insert_admission append_admission
Leaves-take_in a at = search (leaving, Leaves-update) depth 9

module _ (ports : Ports) (c : Circumstances) (actor event_id input key : Text) where
  Leaves-admit :
      (p : Pass) (a : Attendee) → Leaves frame (admit ports c actor event_id input key p a)
  unfolding admit add_history add_metric
  Leaves-admit p a = search (leaving, Leaves-take_in, Leaves-update) depth 12

  Leaves-judge_active :
      (p : Pass) (a : Attendee) → Leaves frame (judge_active ports c actor event_id input key p a)
  unfolding judge_active
  Leaves-judge_active p a = search (leaving, Leaves-admit)

  Leaves-judge_pass :
      (o : Option (Pass × Attendee)) → Leaves frame (judge_pass ports c actor event_id input key o)
  unfolding judge_pass
  Leaves-judge_pass none = search leaving
  Leaves-judge_pass (some (p, a)) = search (leaving, Leaves-judge_active) depth 7

  Leaves-judge_window :
      (o : Option Window) → Leaves frame (judge_window ports c actor event_id input key o)
  unfolding judge_window
  Leaves-judge_window none = search leaving
  Leaves-judge_window (some w) = search (leaving, Leaves-judge_pass) depth 7

  Leaves-judge_event :
      (e : Event) (o : Option (Pass × Attendee))
      → Leaves frame (judge_event ports c actor event_id input key e o)
  unfolding judge_event
  Leaves-judge_event e (some (p, a)) = search leaving
  Leaves-judge_event e none = search (leaving, Leaves-judge_window)

  pub Leaves-judge : (e : Event) → Leaves frame (judge ports c actor event_id input key e)
  unfolding judge
  Leaves-judge e = search (leaving, Leaves-judge_event)

  Leaves-open_intent :
      {V : Type 0} {f : Db → V} (s : ScanState) (o : Option Text)
      → Leaves f (open_intent ports c actor event_id input key s o)
  unfolding open_intent
  Leaves-open_intent s none = search leaving
  Leaves-open_intent s (some p) = search leaving

  pub Leaves-replay :
      {V : Type 0} {f : Db → V} (o : ScanOperation)
      → Leaves f (replay ports c actor event_id input key o)
  unfolding replay
  Leaves-replay o = search (leaving, Leaves-open_intent)

  pub Leaves-commit :
      {V : Type 0} {f : Db → V} (o : Option LedgerRecord)
      → Leaves f (commit ports c actor event_id input key o)
  unfolding commit
  Leaves-commit none = search leaving
  Leaves-commit (some r) = search leaving
