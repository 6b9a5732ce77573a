-- ===== src/Platform/Tests.antt =====
-- The platform at concrete rows: one wedding with one event, two guests and its scanner.
pub mod Rows
use save_the_date.Base.{
  ℕ, ◌≡◌, ◌↔◌, refl, true, false, none, some, List, [], ◌∷◌, ◌++◌, Text, codes, any, same, Outcome,
  same_refl, arith, returned, inl,
}
use save_the_date.Platform.Capability.{
  owner, security, scan, TenantContext, require_capability, DomainError, covers, allowed,
}
use save_the_date.Platform.Households.{Grant, GuestSession, confirmed}
use save_the_date.Platform.Capability.Laws.{Free, Grants, require_capability_iff}
use save_the_date.Platform.Admission.Model.{
  World, Pass, active, Event, Attendee, Rsvp, automatic, Ports, Circumstances, written, ScanOutcome,
  admitted, admission_window, from_start, both, to_declined,
}
use save_the_date.Platform.Admission.Life.{view, IsWellFormed, Stepped}
use save_the_date.Platform.Admission.Scan.{
  redeem, redeem_lowered, scan_once, gate, decide, add_scan, record_scan, is_same_scan, commit,
}
use save_the_date.Platform.Admission.Replay.{redeem_twice}
use save_the_date.Platform.Admission.Guards.{
  query, update, settle, transaction, refuse, needed, assigned, context, membership, tenant, lift,
  require_tenant, legacy_hold, event_row, add_history, add_metric, recorded, put, write_ledger,
}
use save_the_date.Platform.Admission.Redeem.{
  starts_with, attendee_of, with_attendee, fits, find_pass, as_used, admissible, is_foreign,
  is_held_back, append_admission, insert_admission, use_pass, take_in, lookup, scanned_hashes,
  intent_of, admit, judge_active, judge_pass, judge_window, judge_event, judge,
}
use save_the_date.Platform.Admission.Passes.{rsvp_confirmed}
use save_the_date.Platform.Admission.Trace.{
  Call, issuing, revoking, reissuing, redeeming, sweeping, correcting, perform, run,
  perform-Stepped, IsSound, run-IsSound,
}
use save_the_date.Platform.Jobs.{
  JobRow, pending, succeeded, Query, leasing, beating, acknowledging, failing, work,
}
use save_the_date.Platform.Jobs.Laws.{Stands, work_keeps_finished}
use save_the_date.Platform.Tests.Rows.{
  ports, at_time, pass, event, grant, guest_session, attendee, rsvp, world, scan_ada, evening,
}

world-IsWellFormed : IsWellFormed (view world)
world-IsWellFormed = ground arith

world-IsSound : IsSound (view world)
world-IsSound = (world-IsWellFormed, (tt, tt))

perform-Stepped_example : Stepped (view world) (view (perform ports scan_ada world))
perform-Stepped_example = perform-Stepped ports scan_ada world world-IsWellFormed

run-IsSound_example : IsSound (view (run ports evening world))
run-IsSound_example = run-IsSound ports evening world world-IsSound

abbrev gate_context : TenantContext
gate_context = record {
  ownership_recovery_hold = false;
  wedding_id = codes "w1";
  actor_id = codes "sec";
  role = security;
  event_ids = codes "e1" ∷ [];
  album_ids = [];
}

require_capability_iff_example :
    (require_capability gate_context scan (some (codes "e1")) ≡ returned tt)
    ↔ (Free false scan × Grants security (codes "e1" ∷ []) [] (some (codes "e1")) scan)
require_capability_iff_example = require_capability_iff gate_context scan (some (codes "e1"))

abbrev done_job : JobRow
done_job = record {
  id = codes "j1";
  state = succeeded;
  lease_owner = some (codes "wk1");
  lease_until = none;
  retry_at = 0;
  attempts = 1;
  result = some (codes "{}");
  error_code = none;
  created_at = 0;
}

abbrev due_job : JobRow
due_job = record done_job { id = codes "j2"; state = pending; lease_owner = none; attempts = 0 }

abbrev queries : List Query
queries =
    leasing (codes "wk2") 1000
    ∷ leasing (codes "wk1") 2000
    ∷ beating (codes "j2") (codes "wk2") 3000
    ∷ failing (record { id = codes "j2"; attempts = 1; lease_owner = codes "wk2" })
        (codes "TIMEOUT") true 4000
    ∷ acknowledging (record { id = codes "j1"; attempts = 1; lease_owner = codes "wk1" })
        (codes "{}")
    ∷ []

work_keeps_finished_example : Stands done_job (work queries (done_job ∷ due_job ∷ []))
work_keeps_finished_example =
    work_keeps_finished queries done_job (done_job ∷ due_job ∷ []) (ground arith) refl (inl refl)

ports_fit : (s : Text) → any (same (ports.hash s)) (ports.candidates s) ≡ true
ports_fit s = ground (arith, same_refl (codes "h" ++ s))

abbrev admitted_ada : ScanOutcome
admitted_ada = record { state = admitted; name = some (codes "Ada"); used_at = some 10000500 }

abbrev scan_at : ℕ → Text → World → Outcome DomainError ScanOutcome × World
scan_at now fresh =
    redeem ports (at_time now fresh) (codes "sec") (codes "e1") (codes "std-admission:v1:T1")
      (codes "k1")

ada_is_admitted : (scan_at 10000500 (codes "m1") world).0 ≡ returned admitted_ada
unfolding redeem redeem_lowered scan_once gate decide add_scan record_scan is_same_scan commit query
    update settle transaction refuse needed assigned context membership tenant lift require_tenant
    legacy_hold event_row add_history add_metric recorded put write_ledger starts_with attendee_of
    with_attendee fits find_pass as_used admissible is_foreign is_held_back append_admission
    insert_admission use_pass take_in lookup scanned_hashes intent_of admit judge_active judge_pass
    judge_window judge_event judge rsvp_confirmed covers allowed require_capability admission_window
    from_start both same
ada_is_admitted = refl

-- The same scan again, long after the end of the event
redeem_twice_example :
    let again = scan_at 99999999 (codes "m9") (scan_at 10000500 (codes "m1") world).1 in
    (again.0 ≡ returned admitted_ada) × (again.1.db ≡ (scan_at 10000500 (codes "m1") world).1.db)
redeem_twice_example =
    redeem_twice ports ports_fit (at_time 10000500 (codes "m1")) (at_time 99999999 (codes "m9"))
      (codes "sec") (codes "e1") (codes "std-admission:v1:T1") (codes "k1") world admitted_ada
      ada_is_admitted refl refl
