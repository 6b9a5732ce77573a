-- ===== src/Platform/Admission/Steady.antt =====
-- The helpers that leave the passes alone: the guards, the answers under a key, the ledger and the
-- rows that are added to other tables.
use save_the_date.Base.{ℕ, refl, Option, none, some, List, Text, Outcome, arith}
use save_the_date.Platform.Capability.{Capability, DomainError}
use save_the_date.Platform.Admission.Model.{
  Action, Answer, OperationKey, LedgerRecord, Ports, Circumstances, Writing,
}
use save_the_date.Platform.Admission.Guards.{
  tenant, lift, require_tenant, owner_only, legacy_hold, event_row, earlier, operation, once,
  recorded, write_ledger, update, add_history, add_ticket_jobs, add_result,
}
use save_the_date.Platform.Admission.Passes.{available}
use save_the_date.Platform.Admission.Control.{pass_row}
use save_the_date.Platform.Admission.Effects.{
  Keeps-update, Keeps, Safe, Keeps-bind, Safe-bind, Safe-Keeps, Keeps-pure, Keeps-throw,
  Keeps-query, Keeps-needed, Keeps-refuse, Keeps-if,
}

pub ruleset keeping =
    (Keeps-bind, Keeps-pure, Keeps-query, Keeps-needed, Keeps-refuse, Keeps-throw, Keeps-if)

Keeps-lift : (r : Outcome DomainError (Unit {0})) → Keeps (lift r)
unfolding lift
Keeps-lift r = record { keeps = λ w. refl }

pub Keeps-require_tenant :
    (actor : Text) (c : Capability) (r : Option Text) → Keeps (require_tenant actor c r)
unfolding require_tenant tenant
Keeps-require_tenant actor c r = search (keeping, Keeps-lift) depth 8

pub Keeps-owner_only : (actor : Text) → Keeps (owner_only actor)
unfolding owner_only
Keeps-owner_only actor = search Keeps-require_tenant

pub Keeps-legacy_hold : Keeps legacy_hold
unfolding legacy_hold
Keeps-legacy_hold = search keeping

pub Keeps-event_row : (event_id : Text) → Keeps (event_row event_id)
unfolding event_row
Keeps-event_row event_id = search keeping

pub Keeps-pass_row :
    (ports : Ports) (c : Circumstances) (pass_id : Text) → Keeps (pass_row ports c pass_id)
unfolding pass_row
Keeps-pass_row ports c pass_id = search keeping

pub Keeps-available : (ports : Ports) (c : Circumstances) → Keeps (available ports c)
unfolding available
Keeps-available ports c = search keeping

Keeps-earlier :
    (ports : Ports) (digest : Text) (o : Option OperationKey) → Keeps (earlier ports digest o)
unfolding earlier
Keeps-earlier ports digest none = search keeping
Keeps-earlier ports digest (some o) = search keeping

pub Keeps-operation :
    (ports : Ports) (actor name key : Text) (body : List (Option Text))
    → Keeps (operation ports actor name key body)
unfolding operation
Keeps-operation ports actor name key body = search (keeping, Keeps-earlier)

pub Keeps-recorded : (c : Circumstances) (pass_id : Text) → Keeps (recorded c pass_id)
unfolding recorded
Keeps-recorded c pass_id = record { keeps = λ w. ground arith }

pub Keeps-write_ledger : (how : Writing) (r : LedgerRecord) → Keeps (write_ledger how r)
unfolding write_ledger
Keeps-write_ledger how r = record { keeps = λ w. ground arith }

-- What an operation begins with, and the ledger
pub ruleset guarding = (
  keeping, Keeps-require_tenant, Keeps-owner_only, Keeps-legacy_hold, Keeps-event_row,
  Keeps-pass_row, Keeps-available, Keeps-operation, Keeps-recorded, Keeps-write_ledger,
)

-- An earlier answer changes nothing.
pub Safe-once : (o : Option Answer) {rest : Action Answer} → Safe rest → Safe (once o rest)
unfolding once
Safe-once none s = s
Safe-once (some answer) s = Safe-Keeps (Keeps-pure answer)

pub Keeps-add_history :
    (pass_id action actor : Text) (reason : Option Text)
    → Keeps (update (add_history pass_id action (some actor) reason))
unfolding add_history
Keeps-add_history pass_id action actor reason = Keeps-update _ (λ db. refl)

pub Keeps-add_result :
    (ports : Ports) (actor name key : Text) (body : List (Option Text)) (a : Answer)
    → Keeps (update (add_result ports actor name key body a))
unfolding add_result
Keeps-add_result ports actor name key body a = Keeps-update _ (λ db. refl)

pub Keeps-add_ticket_jobs :
    (pass_id : Text) (n : ℕ) (action actor : Text) (reason : Option Text)
    → Keeps (
        update (λ db.
          add_ticket_jobs pass_id n actor (add_history pass_id action (some actor) reason db)))
unfolding add_ticket_jobs add_history
Keeps-add_ticket_jobs pass_id n action actor reason = Keeps-update _ (λ db. refl)
