-- ===== src/Platform/Households/Aside.antt =====
-- The parts of the operations on households that leave the places of the events alone.
use save_the_date.Base.{
  ℕ, ◌≡◌, refl, Bool, Option, none, some, List, [], ◌∷◌, Text, Outcome, throw, arith,
}
use save_the_date.Platform.Capability.{Capability, DomainError}
use save_the_date.Platform.Households.{RsvpState}
use save_the_date.Platform.Households.Access.{Guest, authenticate, add_audit}
use save_the_date.Platform.Households.Release.{attendee_for, note_revoked, revoke_held}
use save_the_date.Platform.Households.Record.{
  upsert_answer, note_tickets, refresh_tickets, rename_attendee, queue, queue_issue,
}
use save_the_date.Platform.Households.Submit.{append_job, send_mails}
use save_the_date.Platform.Households.Places.{places}
use save_the_date.Platform.Households.Ensuring.{Leaves-needed}
use save_the_date.Platform.Admission.Model.{
  Db, Event, Attendee, Rsvp, Pass, OperationKey, Ports, Circumstances,
}
use save_the_date.Platform.Admission.Guards.{
  update, lift, tenant, require_tenant, owner_only, add_ticket_jobs, earlier, operation,
}
use save_the_date.Platform.Admission.Correct.{rename}
use save_the_date.Platform.Admission.Leaves.{
  Leaves, Leaves-bind, Leaves-update, Leaves-query, Leaves-pure, Leaves-if, Leaves-refuse, leaving,
}

pub ruleset aside = (leaving, Leaves-needed)

pub Leaves-throw {ℓ} : {A : Type ℓ} (e : DomainError) → Leaves {A = A} places (throw e)
Leaves-throw e = record { leaves = λ w. refl }

Leaves-lift : (r : Outcome DomainError (Unit {0})) → Leaves places (lift r)
unfolding lift
Leaves-lift r = record { leaves = λ w. refl }

pub Leaves-require_tenant :
    (actor : Text) (c : Capability) (r : Option Text) → Leaves places (require_tenant actor c r)
unfolding require_tenant tenant
Leaves-require_tenant actor c r = search (aside, Leaves-lift) depth 12

pub Leaves-owner_only : (actor : Text) → Leaves places (owner_only actor)
unfolding owner_only
Leaves-owner_only actor = search Leaves-require_tenant

pub Leaves-authenticate :
    (c : Circumstances) (hashes : List Text) → Leaves places (authenticate c hashes)
unfolding authenticate
Leaves-authenticate c hashes = search aside

module _ (ports : Ports) where
  Leaves-earlier :
      (digest : Text) (o : Option OperationKey) → Leaves places (earlier ports digest o)
  unfolding earlier
  Leaves-earlier digest none = search aside
  Leaves-earlier digest (some o) = search (aside, Leaves-throw)

  pub Leaves-operation :
      (actor name key : Text) (body : List (Option Text))
      → Leaves places (operation ports actor name key body)
  unfolding operation
  Leaves-operation actor name key body = search (aside, Leaves-earlier)

  pub Leaves-send_mails :
      (g : Guest) (event_id key : Text) (to : List Text)
      → Leaves places (send_mails ports g event_id key to)
  unfolding send_mails append_job
  Leaves-send_mails g event_id key [] = search aside
  Leaves-send_mails g event_id key (email ∷ rest) =
      let later = Leaves-send_mails g event_id key rest in
      Leaves-bind (Leaves-query _) λ clash.
        Leaves-bind (Leaves-refuse clash _)
          λ u. Leaves-bind (Leaves-update _ (λ db. refl)) λ v. later

  pub Leaves-queue_issue :
      (e : Event) (a : Text) (old : Option Rsvp) (s : RsvpState) (n : ℕ)
      → Leaves places (update (queue_issue ports e a old s n))
  unfolding queue_issue queue
  Leaves-queue_issue e a old s n = Leaves-update _ (λ db. ground arith)

pub Leaves-attendee_for : (rows : List Attendee) (id : Text) → Leaves places (attendee_for rows id)
unfolding attendee_for
Leaves-attendee_for rows id = Leaves-needed _ _

places-note_revoked :
    (actor : Option Text) (reason : Text) (ps : List Pass) (db : Db)
    → places (note_revoked actor reason ps db) ≡ places db
unfolding note_revoked add_audit
places-note_revoked actor reason [] db = refl
places-note_revoked actor reason (p ∷ ps) db = places-note_revoked actor reason ps _

pub Leaves-revoke_held :
    (actor : Option Text) (reason : Text) (test : Pass → Bool)
    → Leaves places (revoke_held actor reason test)
unfolding revoke_held
Leaves-revoke_held actor reason test = Leaves-bind (Leaves-query _) λ rows.
    Leaves-bind (Leaves-update _ (λ db. refl))
      λ u. Leaves-update _ (places-note_revoked actor reason rows)

pub Leaves-upsert_answer :
    (row : ℕ → Rsvp) (test : Rsvp → Bool) (o : Option Rsvp)
    → Leaves places (upsert_answer row test o)
unfolding upsert_answer
Leaves-upsert_answer row test none = Leaves-bind (Leaves-update _ (λ db. refl)) λ u. Leaves-pure _
Leaves-upsert_answer row test (some old) =
    Leaves-bind (Leaves-update _ (λ db. refl)) λ u. Leaves-pure _

places-note_tickets :
    (actor : Option Text) (ps : List Pass) (db : Db) → places (note_tickets actor ps db) ≡ places db
unfolding note_tickets add_ticket_jobs
places-note_tickets actor [] db = refl
places-note_tickets actor (p ∷ ps) db = places-note_tickets actor ps _

Leaves-refresh_tickets :
    (id : Text) (actor : Option Text) → Leaves places (refresh_tickets id actor)
unfolding refresh_tickets
Leaves-refresh_tickets id actor = Leaves-bind (Leaves-query _) λ rows.
    Leaves-bind (Leaves-update _ (λ db. refl)) λ u. Leaves-update _ (places-note_tickets actor rows)

pub Leaves-rename_attendee : (a : Attendee) (name : Text) → Leaves places (rename_attendee a name)
unfolding rename_attendee rename
Leaves-rename_attendee a name =
    Leaves-if _ (Leaves-pure _)
      (Leaves-bind (Leaves-update _ (λ db. refl)) λ u. Leaves-refresh_tickets a.id none)
