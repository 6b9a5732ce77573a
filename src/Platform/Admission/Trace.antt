-- ===== src/Platform/Admission/Trace.antt =====
-- Sequences of calls on the passes of a wedding, in the order in which their transactions lock the
-- event: issuing, revoking, reissuing, redeeming, correcting and the sweep.
use save_the_date.Base.{
  ℕ, ◌≡◌, ◌≢◌, refl, sym, subst, ap, Bool, true, false, ◌&&◌, List, [], ◌∷◌, ◌++◌, Text, any, same,
  All, All-append, All-imp, Distinct, inl, inr, arith, same→eq,
}
use save_the_date.Platform.Admission.Model.{
  World, Pass, PassStatus, used, Admission, Ports, Circumstances, CorrectionInput,
}
use save_the_date.Platform.Admission.Passes.{issue, is_active}
use save_the_date.Platform.Admission.Control.{revoke, reissue, sweep}
use save_the_date.Platform.Admission.Redeem.{is_used_status}
use save_the_date.Platform.Admission.Scan.{redeem}
use save_the_date.Platform.Admission.Life.{
  Move, to_revoked, to_expired, to_used, to_active, Evolves, View, view, IsWellFormed, has_active,
  has_used, Stepped,
}
use save_the_date.Platform.Admission.Lifecycle.{Safe-revoke, Safe-sweep}
use save_the_date.Platform.Admission.Issuing.{Safe-issue}
use save_the_date.Platform.Admission.Reissuing.{Safe-reissue}
use save_the_date.Platform.Admission.Correct.{correct}
use save_the_date.Platform.Admission.Correcting.{Safe-correct}
use save_the_date.Platform.Admission.Admitting.{Safe-redeem}

-- A call, with the circumstances that it meets and its arguments
pub data Call : Type 0 where
  issuing : Circumstances → Text → Text → Text → Text → Call
  revoking reissuing : Circumstances → Text → Text → ℕ → Text → Text → Call
  redeeming : Circumstances → Text → Text → Text → Text → Call
  sweeping : Circumstances → Call
  correcting : Text → CorrectionInput → Text → Call

-- What a call leaves behind, whether it returns or throws
unfoldable pub perform : Ports → Call → World → World
perform ports (issuing c actor attendee event key) w = (issue ports c actor attendee event key w).1
perform ports (revoking c actor pass_id version reason key) w =
    (revoke ports c actor pass_id version reason key w).1
perform ports (reissuing c actor pass_id version reason key) w =
    (reissue ports c actor pass_id version reason key w).1
perform ports (redeeming c actor event input key) w = (redeem ports c actor event input key w).1
perform ports (sweeping c) w = (sweep ports c w).1
perform ports (correcting actor input key) w = (correct ports actor input key w).1

unfoldable pub run : Ports → List Call → World → World
run ports [] w = w
run ports (call ∷ calls) w = run ports calls (perform ports call w)

-- Every call, from well-formed rows on and whether it returns or throws, leaves the rows well
-- formed: pass ids do not repeat, and a pass holds its sealed credentials exactly while it is
-- active. Each pass stays as it is or moves in its next version along one edge of the life of a
-- pass (active to revoked, expired or used, and anything but used back to active), new passes are
-- active in version one, and an admission that is added is one of a pass that was active and is
-- used now.
pub perform-Stepped :
    (ports : Ports) (call : Call) (w : World)
    → IsWellFormed (view w)
    → Stepped (view w) (view (perform ports call w))
unfolding perform
perform-Stepped ports (issuing c actor attendee event key) w wf =
    (Safe-issue ports c actor attendee event key).steps w wf
perform-Stepped ports (revoking c actor pass_id version reason key) w wf =
    (Safe-revoke ports c actor pass_id version reason key).steps w wf
perform-Stepped ports (reissuing c actor pass_id version reason key) w wf =
    (Safe-reissue ports c actor pass_id version reason key).steps w wf
perform-Stepped ports (redeeming c actor event input key) w wf =
    (Safe-redeem ports c actor event input key).steps w wf
perform-Stepped ports (sweeping c) w wf = (Safe-sweep ports c).steps w wf
perform-Stepped ports (correcting actor input key) w wf =
    (Safe-correct ports actor input key).steps w wf

Move-ne : {s t : PassStatus} → Move s t → s ≢ used
Move-ne to_revoked = λ e. cc
Move-ne to_expired = λ e. cc
Move-ne to_used = λ e. cc
Move-ne (to_active ne) = ne

used_of : (s : PassStatus) → is_used_status s ≡ true → s ≡ used
used_of s h = ground arith

-- No edge leaves `used`.
has_used-Evolves :
    (i : Text) (ps qs : List Pass) → Evolves ps qs → has_used i ps ≡ true → has_used i qs ≡ true
has_used-Evolves i [] qs e h = cc
has_used-Evolves i (p ∷ ps) [] e h = absurd e
has_used-Evolves i (p ∷ ps) (q ∷ qs) (inl same_row, e) h =
    ground (arith, ap Pass.id same_row, ap Pass.status same_row, has_used-Evolves i ps qs e)
has_used-Evolves i (p ∷ ps) (q ∷ qs) (inr moved, e) h =
    ground (arith, Move-ne moved.0, used_of p.status, has_used-Evolves i ps qs e)

absent :
    (test : PassStatus → Bool) (i j : Text) (ps : List Pass)
    → All (λ q. j ≢ q.id) ps
    → same j i ≡ true
    → any (λ p. same p.id i && test p.status) ps ≡ false
absent test i j [] ne e = refl
absent test i j (p ∷ ps) ne e =
    ground (arith, same→eq j i e, same→eq p.id i, absent test i j ps ne.1 e)

-- Ids do not repeat, so a pass is not active and used at once.
not_both :
    (i : Text) (ps : List Pass)
    → Distinct Pass.id ps
    → has_active i ps ≡ true
    → has_used i ps ≡ false
not_both i [] d h = refl
not_both i (p ∷ ps) d h =
    ground (
      arith,
      not_both i ps d.1,
      absent is_used_status i p.id ps d.0,
      absent is_active i p.id ps d.0,
    )

-- The rows of the admissions name used passes, each pass once.
abbrev pub Covered : List Pass → List Admission → Type 0
Covered ps bs = All (λ a. has_used a.pass_id ps ≡ true) bs × Distinct Admission.pass_id bs

abbrev pub IsSound : View → Type 0
IsSound v = IsWellFormed v × Covered v.passes v.admissions

still_used :
    (v v' : View)
    → Evolves v.passes v'.passes
    → All (λ a. has_used a.pass_id v.passes ≡ true) v.admissions
    → All (λ a. has_used a.pass_id v'.passes ≡ true) v.admissions
still_used v v' e h = All-imp v.admissions (λ a. has_used-Evolves a.pass_id v.passes v'.passes e) h

was_other :
    (v : View) {i j : Text}
    → IsWellFormed v
    → has_active i v.passes ≡ true
    → has_used j v.passes ≡ true
    → j ≢ i
was_other v {i} {j} wf was_active was_used e =
    let unused : has_used i v.passes ≡ false = not_both i v.passes wf.0 was_active in
    let used_too : has_used i v.passes ≡ true =
      subst (λ k. has_used k v.passes ≡ true) e was_used in
    cc

Distinct-snoc :
    (a : Admission) (bs : List Admission)
    → All (λ b. b.pass_id ≢ a.pass_id) bs
    → Distinct Admission.pass_id bs
    → Distinct Admission.pass_id (bs ++ a ∷ [])
Distinct-snoc a [] ne d = (tt, tt)
Distinct-snoc a (b ∷ bs) ne d = (
  All-append (λ c. b.pass_id ≢ c.pass_id) bs (a ∷ []) d.0 (ne.0, tt),
  Distinct-snoc a bs ne.1 d.1,
)

-- A step keeps the admissions sound.
Stepped-IsSound : (v v' : View) → IsSound v → Stepped v v' → IsSound v'
Stepped-IsSound v v' (wf, (all_used, d)) (wf', e, inl kept) =
    (wf', subst (Covered v'.passes) (sym kept) (still_used v v' e all_used, d))
Stepped-IsSound v v' (wf, (all_used, d)) (wf', e, inr (a, grown, was_active, now_used)) = (
  wf',
  subst (Covered v'.passes) (sym grown) (
    All-append (λ b. has_used b.pass_id v'.passes ≡ true) v.admissions (a ∷ [])
        (still_used v v' e all_used) (now_used, tt),
    Distinct-snoc a v.admissions
        (All-imp v.admissions (λ b was_used. was_other v wf was_active was_used) all_used) d,
  ),
)

-- From sound rows on, over any sequence of calls, whatever their outcomes: every admission is one
-- of a pass that is used, and no pass has two.
pub run-IsSound :
    (ports : Ports) (calls : List Call) (w : World)
    → IsSound (view w)
    → IsSound (view (run ports calls w))
unfolding run
run-IsSound ports [] w s = s
run-IsSound ports (call ∷ calls) w s =
    run-IsSound ports calls (perform ports call w)
      (Stepped-IsSound (view w) (view (perform ports call w)) s (perform-Stepped ports call w s.0))
