-- ===== src/Platform/Admission/Gate.antt =====
-- What a scan passes first reads the tables of the wedding, its members, its holds and its events,
-- and changes nothing.
use save_the_date.Base.{
  ◌≡◌, refl, sym, ap, ap₂, ◌∙◌, Bool, true, false, Option, none, some, [], Text, same, any, find?,
  Outcome, returned, thrown, resume, ◌>>=◌,
}
use save_the_date.Platform.Capability.{DomainError, Capability}
use save_the_date.Platform.Admission.Model.{Db, World, Action, Membership, Ports, Circumstances}
use save_the_date.Platform.Admission.Guards.{
  query, refuse, needed, context, membership, tenant, lift, require_tenant, legacy_hold, event_row,
}
use save_the_date.Platform.Admission.Scan.{gate}

-- The tables that the gate reads, and nothing in the others
abbrev pub frame : Db → Db
frame db = record db {
  attendees = [];
  rsvps = [];
  passes = [];
  admissions = [];
  scan_operations = [];
  operation_keys = [];
  corrections = [];
  files = [];
  history = [];
  audits = [];
  metrics = [];
}

-- The action answers by the frame alone, and changes nothing.
pub record Reads {ℓ} {A : Type ℓ} (m : Action A) : Type ℓ where
  pub same_answer : (w w' : World) → frame w.db ≡ frame w'.db → (m w).0 ≡ (m w').0
  pub unchanged : (w : World) → (m w).1 ≡ w

module _ {ℓ κ} {A : Type ℓ} {B : Type κ} where
  resume-same_answer :
      (k : A → Action B)
      → ((a : A) → Reads (k a))
      → (r : Outcome DomainError A) (w w' : World) → frame w.db ≡ frame w'.db
      → (resume k r w).0 ≡ (resume k r w').0
  resume-same_answer k h (returned a) w w' e = (h a).same_answer w w' e
  resume-same_answer k h (thrown x) w w' e = refl

  resume-unchanged :
      (k : A → Action B)
      → ((a : A) → Reads (k a))
      → (r : Outcome DomainError A) (w : World) → (resume k r w).1 ≡ w
  resume-unchanged k h (returned a) w = (h a).unchanged w
  resume-unchanged k h (thrown x) w = refl

  Reads-bind :
      {m : Action A} {k : A → Action B} → Reads m → ((a : A) → Reads (k a)) → Reads (m >>= k)
  Reads-bind {m} {k} g h = record {
    same_answer = λ w w' e.
        ap₂ (λ r x. (resume k r x).0) (g.same_answer w w' e) (g.unchanged w)
        ∙ resume-same_answer k h (m w').0 w w' e
        ∙ sym (ap (λ x. (resume k (m w').0 x).0) (g.unchanged w'));
    unchanged = λ w. resume-unchanged k h (m w).0 (m w).1 ∙ g.unchanged w;
  }

module _ {ℓ} {A : Type ℓ} where
  Reads-query : (f : Db → A) → ((db : Db) → f db ≡ f (frame db)) → Reads (query f)
  unfolding query
  Reads-query f h = record {
    same_answer = λ w w' e. ap returned (h w.db ∙ ap f e ∙ sym (h w'.db));
    unchanged = λ w. refl;
  }

  Reads-needed : (e : DomainError) (o : Option A) → Reads (needed e o)
  unfolding needed
  Reads-needed e none = record { same_answer = λ w w' h. refl; unchanged = λ w. refl }
  Reads-needed e (some a) = record { same_answer = λ w w' h. refl; unchanged = λ w. refl }

Reads-refuse : (b : Bool) (e : DomainError) → Reads (refuse b e)
unfolding refuse
Reads-refuse true e = record { same_answer = λ w w' h. refl; unchanged = λ w. refl }
Reads-refuse false e = record { same_answer = λ w w' h. refl; unchanged = λ w. refl }

Reads-lift : (r : Outcome DomainError (Unit {0})) → Reads (lift r)
unfolding lift
Reads-lift r = record { same_answer = λ w w' h. refl; unchanged = λ w. refl }

Reads-membership : (actor : Text) → Reads (query (membership actor))
unfolding membership
Reads-membership actor = Reads-query _ (λ db. refl)

Reads-context : (actor : Text) (m : Membership) → Reads (query (λ db. context actor db m))
unfolding context
Reads-context actor m = Reads-query _ (λ db. refl)

Reads-holds : (state : Text) → Reads (query (λ db. any (same state) db.recovery_holds))
Reads-holds state = Reads-query _ (λ db. refl)

Reads-transfers : (state : Text) → Reads (query (λ db. any (same state) db.legacy_transfers))
Reads-transfers state = Reads-query _ (λ db. refl)

Reads-events : (id : Text) → Reads (query (λ db. find? (λ e. same e.id id) db.events))
Reads-events id = Reads-query _ (λ db. refl)

ruleset reading = (
  Reads-bind, Reads-needed, Reads-refuse, Reads-lift, Reads-membership, Reads-context, Reads-holds,
  Reads-transfers, Reads-events,
)

Reads-require_tenant :
    (actor : Text) (c : Capability) (r : Option Text) → Reads (require_tenant actor c r)
unfolding require_tenant tenant
Reads-require_tenant actor c r = search reading depth 8

Reads-legacy_hold : Reads legacy_hold
unfolding legacy_hold
Reads-legacy_hold = search reading

Reads-event_row : (event_id : Text) → Reads (event_row event_id)
unfolding event_row
Reads-event_row event_id = search reading

pub Reads-gate :
    (ports : Ports) (c : Circumstances) (actor event_id input key : Text)
    → Reads (gate ports c actor event_id input key)
unfolding gate
Reads-gate ports c actor event_id input key =
    search (reading, Reads-require_tenant, Reads-legacy_hold, Reads-event_row) depth 8
