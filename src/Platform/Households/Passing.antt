-- ===== src/Platform/Households/Passing.antt =====
-- The operations on passes leave the places of the events alone.
use save_the_date.Base.{ℕ, ◌≡◌, refl, ap, Option, none, some, List, [], ◌∷◌, Text}
use save_the_date.Platform.Households.Places.{places}
use save_the_date.Platform.Households.Ensuring.{Leaves-transaction, Leaves-needed}
use save_the_date.Platform.Households.Aside.{
  Leaves-require_tenant, Leaves-owner_only, Leaves-operation, Leaves-throw,
}
use save_the_date.Platform.Admission.Model.{
  Db, Action, Event, Pass, Answer, ScanOperation, Ports, Circumstances,
}
use save_the_date.Platform.Admission.Guards.{
  legacy_hold, event_row, add_history, add_ticket_jobs, add_result, once,
}
use save_the_date.Platform.Admission.Passes.{
  available, append_pass, insert_pass, issue_over, issue_in, issue,
}
use save_the_date.Platform.Admission.Control.{
  pass_row, revoke, reissue_found, reissue_locked, reissue_row, reissue, note_expired, sweep,
}
use save_the_date.Platform.Admission.Scan.{
  add_scan, record_scan, decide, gate, scan_once, redeem_lowered, redeem,
}
use save_the_date.Platform.Admission.Gate.{frame}
use save_the_date.Platform.Admission.Judging.{Leaves-judge, Leaves-replay, Leaves-commit}
use save_the_date.Platform.Admission.Leaves.{
  Leaves, Leaves-bind, Leaves-update, Leaves-query, Leaves-pure, Leaves-if, Leaves-refuse,
  Leaves-recorded, leaving,
}

pub ruleset passing = (
  leaving, Leaves-needed, Leaves-transaction, Leaves-throw, Leaves-owner_only,
  Leaves-require_tenant, Leaves-operation,
)

Leaves-legacy_hold : Leaves places legacy_hold
unfolding legacy_hold
Leaves-legacy_hold = search passing

Leaves-event_row : (id : Text) → Leaves places (event_row id)
unfolding event_row
Leaves-event_row id = search passing

Leaves-once : (o : Option Answer) {m : _} → Leaves places m → Leaves places (once o m)
unfolding once
Leaves-once none h = h
Leaves-once (some a) h = Leaves-pure a

module _ (ports : Ports) (c : Circumstances) where
  Leaves-available : Leaves places (available ports c)
  unfolding available
  Leaves-available = Leaves-needed _ _

  Leaves-insert_pass : (p : Pass) → Leaves places (insert_pass p)
  unfolding insert_pass append_pass
  Leaves-insert_pass p = search (passing, Leaves-update)

  Leaves-issue_over :
      (actor attendee event : Text) (o : Option Pass)
      → Leaves places (issue_over ports c actor attendee event o)
  unfolding issue_over add_ticket_jobs add_history
  Leaves-issue_over actor attendee event none =
      search (passing, Leaves-available, Leaves-insert_pass, Leaves-update)
  Leaves-issue_over actor attendee event (some p) = search passing

  Leaves-issue_in :
      (actor attendee : Text) (e : Event) → Leaves places (issue_in ports c actor attendee e)
  unfolding issue_in
  Leaves-issue_in actor attendee e =
      search (passing, Leaves-legacy_hold, Leaves-available, Leaves-issue_over) depth 14

  pub Leaves-issue :
      (actor attendee event key : Text) → Leaves places (issue ports c actor attendee event key)
  unfolding issue add_result
  Leaves-issue actor attendee event key =
      search (passing, Leaves-event_row, Leaves-once, Leaves-issue_in, Leaves-update) depth 14

  Leaves-pass_row : (id : Text) → Leaves places (pass_row ports c id)
  unfolding pass_row
  Leaves-pass_row id = search passing

  pub Leaves-revoke :
      (actor id : Text) (version : ℕ) (reason key : Text)
      → Leaves places (revoke ports c actor id version reason key)
  unfolding revoke add_result add_history
  Leaves-revoke actor id version reason key =
      search (passing, Leaves-pass_row, Leaves-once, Leaves-update) depth 16

  Leaves-reissue_found :
      (id : Text) (e : Event) (p : Pass) → Leaves places (reissue_found ports c id e p)
  unfolding reissue_found
  Leaves-reissue_found id e p = search (passing, Leaves-available, Leaves-update) depth 16

  Leaves-reissue_locked :
      (id : Text) (e : Event) (o : Option Pass) → Leaves places (reissue_locked ports c id e o)
  unfolding reissue_locked
  Leaves-reissue_locked id e none = Leaves-throw _
  Leaves-reissue_locked id e (some p) = Leaves-reissue_found id e p

  Leaves-reissue_row :
      (id : Text) (version : ℕ) (e : Event) → Leaves places (reissue_row ports c id version e)
  unfolding reissue_row
  Leaves-reissue_row id version e = search (passing, Leaves-reissue_locked)

  pub Leaves-reissue :
      (actor id : Text) (version : ℕ) (reason key : Text)
      → Leaves places (reissue ports c actor id version reason key)
  unfolding reissue add_result add_history add_ticket_jobs
  Leaves-reissue actor id version reason key =
      search
        (
          passing, Leaves-legacy_hold, Leaves-pass_row, Leaves-event_row, Leaves-once,
          Leaves-reissue_row, Leaves-update,
        )
        depth 20

  places-note_expired : (ps : List Pass) (db : Db) → places (note_expired ports c ps db) ≡ places db
  unfolding note_expired add_history
  places-note_expired [] db = refl
  places-note_expired (p ∷ ps) db = places-note_expired ps _

  pub Leaves-sweep : Leaves places (sweep ports c)
  unfolding sweep
  Leaves-sweep = Leaves-transaction (
      Leaves-bind (Leaves-query _) λ rows.
        Leaves-bind (Leaves-update _ (λ db. refl)) λ u. Leaves-update _ (places-note_expired rows))

module _ {ℓ} {A : Type ℓ} where
  Leaves-places : {m : Action A} → Leaves frame m → Leaves places m
  Leaves-places h = record { leaves = λ w. ap places (h.leaves w) }

module _ (ports : Ports) (c : Circumstances) (actor event_id input key : Text) where
  Leaves-gate : Leaves places (gate ports c actor event_id input key)
  unfolding gate
  Leaves-gate = search (passing, Leaves-legacy_hold, Leaves-event_row) depth 12

  Leaves-decide :
      (e : Event) (o : Option ScanOperation)
      → Leaves places (decide ports c actor event_id input key e o)
  unfolding decide record_scan add_scan
  Leaves-decide e none =
      Leaves-bind (Leaves-places (Leaves-judge ports c actor event_id input key e))
        λ v. Leaves-bind (Leaves-update _ (λ db. refl)) λ u. Leaves-pure v
  Leaves-decide e (some o) = Leaves-replay ports c actor event_id input key o

  Leaves-scan_once : Leaves places (scan_once ports c actor event_id input key)
  unfolding scan_once
  Leaves-scan_once = search (passing, Leaves-gate, Leaves-decide)

  Leaves-redeem_lowered : Leaves places (redeem_lowered ports c actor event_id input key)
  unfolding redeem_lowered
  Leaves-redeem_lowered = Leaves-bind (Leaves-transaction Leaves-scan_once) λ v.
      Leaves-bind (Leaves-commit ports c actor event_id input key v.to_commit)
        λ u. Leaves-pure v.outcome

pub Leaves-redeem :
    (ports : Ports) (c : Circumstances) (actor event input key : Text)
    → Leaves places (redeem ports c actor event input key)
unfolding redeem
Leaves-redeem ports c actor event input key = Leaves-redeem_lowered ports c actor _ input _
