-- ===== src/HallPasses/Trace.antt =====
-- Every change of the hall pass tables, in any order: apps/web/src/lib/hallPasses.ts.
use mathlib.Core.List.{reverse_aux}
use save_the_date.Base.{
  ℕ, ◌+◌, ◌≤◌, ◌≡◌, refl, Bool, true, false, Option, none, some, List, [], ◌∷◌, ◌++◌, arith, Text,
  ap, count-append, any, count, ◌==◌, if◌then◌else◌, Outcome, returned, thrown,
}
use save_the_date.HallPasses.Model.{
  HallPass, RedeemStatus, valid, used, invalid, RedeemResult, Db, IsWellFormed,
}
use save_the_date.Auth.Session.{AuthSession}
use save_the_date.HallPasses.Redeem.{redeem_hall_pass, log_scan_attempt}
use save_the_date.HallPasses.Redeem.Once.{
  is_used, redeem-IsWellFormed, redeem_used_after, redeem_unused_before, redeem_keeps_used,
}
use save_the_date.HallPasses.Create.{Draw, CreateError, create_hall_passes}
use save_the_date.HallPasses.Create.Limit.{
  Created, create_hall_passes-Created, create_hall_passes-IsWellFormed,
}
use save_the_date.HallPasses.Settings.{update_ticket_limit}
use save_the_date.HallPasses.Manage.{
  invalidate_hall_pass, invalidate_all_hall_passes, EmailDelivery, update_pass_email_delivery,
}
use save_the_date.HallPasses.Manage.Laws.{
  invalidate_hall_pass-IsWellFormed, invalidate_hall_pass_keeps_used,
  invalidate_all_hall_passes-IsWellFormed, invalidate_all_hall_passes_keeps_used,
  update_pass_email_delivery-IsWellFormed, update_pass_email_delivery_keeps_used,
}

-- One call of an exported function that writes, with the instant at which it runs.
pub data Op : Type 0 where
  redeem : Text → Option Text → ℕ → Op
  log_scan : Text → Option Text → RedeemResult → ℕ → ℕ → Op
  create : List Text → Option Text → AuthSession → ℕ → (ℕ → Draw) → Op
  set_limit : Option ℕ → AuthSession → ℕ → Op
  invalidate : ℕ → AuthSession → ℕ → Op
  invalidate_all : AuthSession → ℕ → Op
  record_delivery : List ℕ → EmailDelivery → ℕ → Op

-- The pass that an answer admits.
admits : RedeemStatus → Option ℕ → List ℕ
admits valid none = []
admits valid (some i) = i ∷ []
admits used id = []
admits invalid id = []

module _ (upper : Text → Text) where
  -- One operation: the passes that it admits, and the database after it.
  pub step : Op → Db → List ℕ × Db
  step (redeem token scanner now) db =
      let (r, db') = redeem_hall_pass upper token scanner now db in (admits r.status r.id, db')
  step (log_scan token scanner result fresh now) db =
      ([], log_scan_attempt upper token scanner result fresh now db)
  step (create names invite_from by now draws) db =
      ([], (create_hall_passes upper now invite_from by draws names db).1)
  step (set_limit limit by now) db = ([], (update_ticket_limit limit by now db).1)
  step (invalidate id by now) db = ([], (invalidate_hall_pass id by now db).1)
  step (invalidate_all by now) db = ([], (invalidate_all_hall_passes by now db).1)
  step (record_delivery ids delivery now) db =
      ([], (update_pass_email_delivery ids delivery now db).1)

  -- A run: every admission, in order, and the database at the end.
  pub run : List Op → Db → List ℕ × Db
  run [] db = ([], db)
  run (op ∷ ops) db =
      let (now_admitted, db') = step op db in
      let (later, db'') = run ops db' in (now_admitted ++ later, db'')

any-reverse_aux :
    (i : ℕ) (ps table : List HallPass)
    → any (is_used i) table ≡ true
    → any (is_used i) (reverse_aux ps table) ≡ true
any-reverse_aux i [] table h = h
any-reverse_aux i (p ∷ ps) table h = any-reverse_aux i ps (p ∷ table) (ground arith)

create_keeps_used :
    (upper : Text → Text) (now : ℕ) (invite_from : Option Text) (by : AuthSession)
    (names : List Text) (db : Db) (i : ℕ) (r : Outcome CreateError (List HallPass) × Db)
    → Created upper now invite_from by names db r
    → any (is_used i) db.passes ≡ true
    → any (is_used i) r.1.passes ≡ true
create_keeps_used upper now invite_from by names db i (thrown e, db') c h = rw c.0 h
create_keeps_used upper now invite_from by names db i (returned [], db') c h = rw c.0 h
create_keeps_used upper now invite_from by names db i (returned (p ∷ ps), db') c h =
    rw c.1 (any-reverse_aux i (p ∷ ps) db.passes h)

-- An admission needs an unused pass and leaves it used.
spend :
    (s : RedeemStatus) (o : Option ℕ) (i : ℕ) (before after : Bool)
    → (s ≡ valid → o ≡ some i → (before ≡ false) × (after ≡ true))
    → (before ≡ true → after ≡ true)
    → count (λ j. j == i) (admits s o) + (if after then 0 else 1) ≤ (if before then 0 else 1)
unfolding admits
spend valid none i before after h k = ground arith
spend valid (some j) i before after h k = ground (arith, λ (e : j ≡ i). h refl (ap some e))
spend used o i before after h k = ground arith
spend invalid o i before after h k = ground arith

module _ (upper : Text → Text) where
  -- Every operation keeps the tables well formed: ids, tokens and ticket numbers do not repeat, and
  -- the ticket sequence is ahead of every ticket number.
  pub step-IsWellFormed : (op : Op) (db : Db) → IsWellFormed db → IsWellFormed (step upper op db).1
  unfolding step log_scan_attempt update_ticket_limit
  step-IsWellFormed (redeem token scanner now) db wf =
      redeem-IsWellFormed upper token scanner now db wf
  step-IsWellFormed (log_scan token scanner result fresh now) db wf = record {
    ids = wf.ids;
    tokens = wf.tokens;
    numbers = wf.numbers;
    ahead = wf.ahead;
  }
  step-IsWellFormed (create names invite_from by now draws) db wf =
      create_hall_passes-IsWellFormed upper now invite_from by draws names db wf
  step-IsWellFormed (set_limit limit by now) db wf = record {
    ids = wf.ids;
    tokens = wf.tokens;
    numbers = wf.numbers;
    ahead = wf.ahead;
  }
  step-IsWellFormed (invalidate id by now) db wf = invalidate_hall_pass-IsWellFormed by now db id wf
  step-IsWellFormed (invalidate_all by now) db wf =
      invalidate_all_hall_passes-IsWellFormed by now db wf
  step-IsWellFormed (record_delivery ids delivery now) db wf =
      update_pass_email_delivery-IsWellFormed delivery now db ids wf

  step_keeps_used :
      (op : Op) (db : Db) (i : ℕ)
      → IsWellFormed db
      → any (is_used i) db.passes ≡ true
      → any (is_used i) (step upper op db).1.passes ≡ true
  unfolding step log_scan_attempt update_ticket_limit
  step_keeps_used (redeem token scanner now) db i wf h =
      redeem_keeps_used upper token scanner now db i h
  step_keeps_used (log_scan token scanner result fresh now) db i wf h = h
  step_keeps_used (create names invite_from by now draws) db i wf h =
      create_keeps_used upper now invite_from by names db i _
        (create_hall_passes-Created upper now invite_from by draws names db wf) h
  step_keeps_used (set_limit limit by now) db i wf h = h
  step_keeps_used (invalidate id by now) db i wf h =
      invalidate_hall_pass_keeps_used by now db id i h
  step_keeps_used (invalidate_all by now) db i wf h =
      invalidate_all_hall_passes_keeps_used by now db i h
  step_keeps_used (record_delivery ids delivery now) db i wf h =
      update_pass_email_delivery_keeps_used delivery now db ids i h

  -- How often a pass can still be admitted.
  abbrev chances : ℕ → Db → ℕ
  chances i db = if any (is_used i) db.passes then 0 else 1

  redeem_spends :
      (token : Text) (scanner : Option Text) (now : ℕ) (db : Db) (i : ℕ)
      → IsWellFormed db
      → count (λ j. j == i) (step upper (redeem token scanner now) db).0
          + chances i (step upper (redeem token scanner now) db).1
        ≤ chances i db
  unfolding step
  redeem_spends token scanner now db i wf =
      spend (redeem_hall_pass upper token scanner now db).0.status
        (redeem_hall_pass upper token scanner now db).0.id i (any (is_used i) db.passes)
        (any (is_used i) (redeem_hall_pass upper token scanner now db).1.passes)
        (λ v e. (
          redeem_unused_before upper token scanner now db i wf v e,
          redeem_used_after upper token scanner now db i v e,
        ))
        (redeem_keeps_used upper token scanner now db i)

  step_spends :
      (op : Op) (db : Db) (i : ℕ)
      → IsWellFormed db
      → count (λ j. j == i) (step upper op db).0 + chances i (step upper op db).1 ≤ chances i db
  unfolding step
  step_spends (redeem token scanner now) db i wf = redeem_spends token scanner now db i wf
  step_spends op db i wf = ground (arith, step_keeps_used op db i wf)

  run_spends :
      (ops : List Op) (db : Db) (i : ℕ)
      → IsWellFormed db
      → count (λ j. j == i) (run upper ops db).0 ≤ chances i db
  unfolding run
  run_spends [] db i wf = omega arith
  run_spends (op ∷ ops) db i wf = omega (
    arith,
    count-append (λ j. j == i) (step upper op db).0 (run upper ops (step upper op db).1).0,
    step_spends op db i wf,
    run_spends ops (step upper op db).1 i (step-IsWellFormed op db wf),
  )

  -- From well-formed tables on, whatever is called and in whatever order, no pass is admitted twice.
  pub run_admits_once :
      (ops : List Op) (db : Db) (i : ℕ)
      → IsWellFormed db
      → count (λ j. j == i) (run upper ops db).0 ≤ 1
  run_admits_once ops db i wf = ground (arith, run_spends ops db i wf)

  -- From well-formed tables on, a pass that is used is not admitted by any calls that follow.
  pub run_never_readmits :
      (ops : List Op) (db : Db) (i : ℕ)
      → IsWellFormed db
      → any (is_used i) db.passes ≡ true
      → count (λ j. j == i) (run upper ops db).0 ≡ 0
  run_never_readmits ops db i wf u = ground (arith, run_spends ops db i wf)
