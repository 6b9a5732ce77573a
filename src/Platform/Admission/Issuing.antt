-- ===== src/Platform/Admission/Issuing.antt =====
-- Issuing, followed through its guards to the row that it adds.
use save_the_date.Base.{
  ◌≡◌, ◌≢◌, refl, ap, false, Option, none, some, List, [], ◌∷◌, ◌++◌, Text, same, any, All,
  All-append, Distinct, Bool-cases, inl, inr, arith, same_refl,
}
use save_the_date.Platform.Admission.Model.{Pass, Event, Ports, Circumstances}
use save_the_date.Platform.Admission.Guards.{query, update, refuse}
use save_the_date.Platform.Admission.Passes.{
  clashes, append_pass, insert_pass, new_pass, issue_over, issue_in, issue,
}
use save_the_date.Platform.Admission.Life.{Issued, Evolves, Stepped-refl, view, IsSealed}
use save_the_date.Platform.Admission.Effects.{
  Safe, Safe-bind, Safe-then, Safe-Keeps, Safe-transaction,
}
use save_the_date.Platform.Admission.Steady.{
  guarding, Safe-once, Keeps-add_result, Keeps-add_ticket_jobs,
}

same-false_ne : (s t : Text) → same s t ≡ false → t ≢ s
same-false_ne s t h e = ground (arith, same_refl s, ap (same s) e)

-- A row that clashes with none
append-Stepped :
    (p : Pass) (ps : List Pass)
    → Issued p
    → IsSealed p
    → any (clashes p) ps ≡ false
    → Distinct Pass.id ps × All IsSealed ps
    → (Distinct Pass.id (ps ++ p ∷ []) × All IsSealed (ps ++ p ∷ [])) × Evolves ps (ps ++ p ∷ [])
unfolding clashes
append-Stepped p [] i s free wf = (((tt, tt), (s, tt)), (i, tt))
append-Stepped p (q ∷ qs) i s free wf =
    let other : q.id ≢ p.id = same-false_ne p.id q.id (ground arith) in
    let rest = append-Stepped p qs i s (ground arith) (wf.0.1, wf.1.1) in
    (
      (
        (All-append (λ y. q.id ≢ y.id) qs (p ∷ []) wf.0.0 (other, tt), rest.0.0),
        (wf.1.0, rest.0.1),
      ),
      (inl refl, rest.1),
    )

module _ (ports : Ports) (c : Circumstances) where
  Safe-insert_pass : (p : Pass) → Issued p → IsSealed p → Safe (insert_pass p)
  unfolding insert_pass query refuse update append_pass
  Safe-insert_pass p i s = record {
    steps = λ w wf. elim (Bool-cases (any (clashes p) w.db.passes)) [
      | inl clash ↦ rw clash (Stepped-refl (view w) wf)
      | inr free ↦ rw free (
          let (kept, evolved) = append-Stepped p w.db.passes i s free wf in
          (kept, evolved, inl refl))
    ];
  }

  Safe-new_pass :
      (attendee event sealed : Text) → Safe (insert_pass (new_pass ports c attendee event sealed))
  unfolding new_pass
  Safe-new_pass attendee event sealed = Safe-insert_pass _ (refl, refl) refl

  Safe-issue_over :
      (actor attendee event : Text) (o : Option Pass)
      → Safe (issue_over ports c actor attendee event o)
  unfolding issue_over
  Safe-issue_over actor attendee event (some p) = search (guarding, Safe-Keeps)
  Safe-issue_over actor attendee event none =
      search (guarding, Safe-bind, Safe-then, Safe-new_pass, Keeps-add_ticket_jobs) depth 8

  pub Safe-issue_in : (actor attendee : Text) (e : Event) → Safe (issue_in ports c actor attendee e)
  unfolding issue_in
  Safe-issue_in actor attendee e = search (guarding, Safe-bind, Safe-issue_over) depth 8

  pub Safe-issue :
      (actor attendee event_id key : Text) → Safe (issue ports c actor attendee event_id key)
  unfolding issue
  Safe-issue actor attendee event_id key =
      search
        (
          guarding, Safe-transaction, Safe-bind, Safe-then, Safe-once, Safe-issue_in,
          Keeps-add_result,
        )
        depth 12
