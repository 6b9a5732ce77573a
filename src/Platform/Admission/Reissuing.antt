-- ===== src/Platform/Admission/Reissuing.antt =====
-- Reissuing, followed through its guards to the one row that it moves.
use save_the_date.Base.{
  ℕ, ◌≡◌, ◌≢◌, refl, sym, true, Option, none, some, List, [], ◌∷◌, Text, same, find?, update_where,
  All, All-imp, find?-All, ◌∙◌, Distinct, Bool-cases, inl, inr, arith, same→eq,
}
use save_the_date.Platform.Admission.Model.{Pass, PassStatus, used, Event, Ports, Circumstances}
use save_the_date.Platform.Admission.Guards.{query, update}
use save_the_date.Platform.Admission.Passes.{payload}
use save_the_date.Platform.Admission.Control.{
  is_reissuable, reissuable, as_reissued, reissue_found, reissue_locked, reissue_row, reissue,
}
use save_the_date.Platform.Admission.Life.{
  to_active, Moved, Stepped-refl, view, Stepped-update_where,
}
use save_the_date.Platform.Admission.Effects.{
  Safe, Safe-bind, Safe-then, Safe-transaction, SafeWhen, SafeWhen-bind,
}
use save_the_date.Platform.Admission.Steady.{
  guarding, Safe-once, Keeps-add_result, Keeps-add_ticket_jobs,
}

is_reissuable-ne : (s : PassStatus) → is_reissuable s ≡ true → s ≢ used
is_reissuable-ne s h = ground arith

module _ (ports : Ports) (c : Circumstances) where
  as_reissued-Moved :
      (pass_id sealed : Text) (version : ℕ) (q : Pass)
      → reissuable ports c pass_id version q ≡ true
      → Moved q (as_reissued ports c sealed q)
  unfolding reissuable as_reissued
  as_reissued-Moved pass_id sealed version q h =
      (to_active (is_reissuable-ne q.status (ground arith)), refl, refl, refl, refl)

  reissuable-id :
      (pass_id : Text) (version : ℕ) (q : Pass)
      → reissuable ports c pass_id version q ≡ true
      → q.id ≡ pass_id
  unfolding reissuable
  reissuable-id pass_id version q h = same→eq q.id pass_id (ground arith)

  -- The one row with the id is the one that was found reissuable.
  reissue-moves :
      (pass_id sealed : Text) (version : ℕ) (p : Pass) (ps : List Pass)
      → Distinct Pass.id ps
      → find? (reissuable ports c pass_id version) ps ≡ some p
      → All (λ q. same q.id pass_id ≡ true → Moved q (as_reissued ports c sealed q)) ps
  reissue-moves pass_id sealed version p [] d e = tt
  reissue-moves pass_id sealed version p (q ∷ qs) d e =
      elim (Bool-cases (reissuable ports c pass_id version q)) [
        | inl hit ↦ (
          λ s. as_reissued-Moved pass_id sealed version q hit,
          All-imp qs
              (λ y ne s.
                absurd (ne (reissuable-id pass_id version q hit ∙ sym (same→eq y.id pass_id s))))
              d.0,
        )
        | inr miss ↦
            let found : find? (reissuable ports c pass_id version) qs ≡ some p = rw miss at e in
            let (other, hit) =
              find?-All (λ y. q.id ≢ y.id) (reissuable ports c pass_id version) qs p d.0 found in
            (
              λ s.
                  absurd
                    (other (same→eq q.id pass_id s ∙ sym (reissuable-id pass_id version p hit))),
              reissue-moves pass_id sealed version p qs d.1 found,
            )
      ]

  Safe-reissue_update :
      (pass_id : Text) (version : ℕ) (p : Pass) (seal : Text → Text → Text → Text)
      → SafeWhen
          (λ v. find? (reissuable ports c pass_id version) v.passes ≡ some p)
          (update (λ db. record db {
            passes =
                update_where
                  (λ q. same q.id pass_id)
                  (as_reissued ports c (payload ports c seal db.wedding_id pass_id))
                  db.passes;
          }))
  unfolding update as_reissued
  Safe-reissue_update pass_id version p seal = record {
    steps_when = λ w found wf.
        let sealed = payload ports c seal w.db.wedding_id pass_id in
        let (kept, evolved) =
          Stepped-update_where (λ q. same q.id pass_id) (as_reissued ports c sealed) (view w)
            (λ q. refl) (λ q. refl) (reissue-moves pass_id sealed version p w.db.passes wf.0 found)
            wf in
        (kept, evolved, inl refl);
  }

  Safe-reissue_found :
      (pass_id : Text) (version : ℕ) (e : Event) (p : Pass)
      → SafeWhen
          (λ v. find? (reissuable ports c pass_id version) v.passes ≡ some p)
          (reissue_found ports c pass_id e p)
  unfolding reissue_found
  Safe-reissue_found pass_id version e p =
      search (guarding, SafeWhen-bind, Safe-reissue_update) depth 10

  Safe-reissue_locked :
      (pass_id : Text) (version : ℕ) (e : Event) (o : Option Pass)
      → SafeWhen
          (λ v. find? (reissuable ports c pass_id version) v.passes ≡ o)
          (reissue_locked ports c pass_id e o)
  unfolding reissue_locked
  Safe-reissue_locked pass_id version e none = record {
    steps_when = λ w _ wf. Stepped-refl (view w) wf;
  }
  Safe-reissue_locked pass_id version e (some p) = Safe-reissue_found pass_id version e p

  Safe-reissue_row :
      (pass_id : Text) (version : ℕ) (e : Event) → Safe (reissue_row ports c pass_id version e)
  unfolding reissue_row query
  Safe-reissue_row pass_id version e = record {
    steps = λ w wf.
        (Safe-reissue_locked pass_id version e
            (find? (reissuable ports c pass_id version) w.db.passes)).steps_when
          w refl wf;
  }

  pub Safe-reissue :
      (actor pass_id : Text) (version : ℕ) (reason key : Text)
      → Safe (reissue ports c actor pass_id version reason key)
  unfolding reissue
  Safe-reissue actor pass_id version reason key =
      search
        (
          guarding, Safe-transaction, Safe-bind, Safe-then, Safe-once, Safe-reissue_row,
          Keeps-add_ticket_jobs, Keeps-add_result,
        )
        depth 16
