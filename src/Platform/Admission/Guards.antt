-- ===== src/Platform/Admission/Guards.antt =====
-- The private helpers of packages/persistence/src/passes.ts, and `tenant`, `transaction`, `audit`
-- and `metric` of packages/persistence/src/index.ts, which they call.
use save_the_date.Base.{
  ℕ, Bool, true, false, not, ◌&&◌, Option, none, some, List, ◌∷◌, ◌++◌, map, Text, codes, same,
  is_none, any, filter, find?, if◌then◌else◌, Outcome, returned, thrown, ◌>>=◌, pure, throw,
}
use save_the_date.Platform.Capability.{
  Capability, publish, TenantContext, DomainError, not_found, require_capability,
}
use save_the_date.Platform.Admission.Model.{
  Db, World, Action, Event, TicketFile, Format, jpeg, pdf, OperationKey, Answer, Membership,
  Assignment, LedgerRecord, Ports, Circumstances, Writing, written, refused, unacknowledged,
}

abbrev pub error : ℕ → Text → DomainError
error status error_code = record { status = status; error_code = error_code }

-- A query reads the tables, an update or an insert changes them.
unfoldable pub query {ℓ} : {A : Type ℓ} → (Db → A) → Action A
query f w = (returned (f w.db), w)

unfoldable pub update : (Db → Db) → Action (Unit {0})
update f w = (returned tt, record w { db = f w.db })

unfoldable pub settle {ℓ} :
    {A : Type ℓ} → Db → Outcome DomainError A × World → Outcome DomainError A × World
settle before (returned a, w) = (returned a, w)
settle before (thrown e, w) = (thrown e, record w { db = before })

-- `transaction(fn)`: begin, and commit or roll back. The ledger is not part of the database.
unfoldable pub transaction {ℓ} : {A : Type ℓ} → Action A → Action A
transaction m w = settle w.db (m w)

-- `if (test) throw e`
unfoldable pub refuse : Bool → DomainError → Action (Unit {0})
refuse true e = throw e
refuse false e = pure tt

-- `if (!rowCount) throw e`, and the row otherwise
unfoldable pub needed {ℓ} : {A : Type ℓ} → DomainError → Option A → Action A
needed e none = throw e
needed e (some a) = pure a

-- The ids that an assignment gives to a user
unfoldable pub assigned : Text → List Assignment → List Text
assigned user rows = map Assignment.resource_id (filter (λ a. same a.user_id user) rows)

unfoldable pub context : Text → Db → Membership → TenantContext
context actor db m = record {
  ownership_recovery_hold = db.ownership_recovery_hold;
  wedding_id = db.wedding_id;
  actor_id = actor;
  role = m.role;
  event_ids = assigned actor db.member_events;
  album_ids = assigned actor db.member_albums;
}

-- The membership of the actor, joined with the wedding where it is not deleted
unfoldable pub membership : Text → Db → Option Membership
membership actor db =
    if is_none db.wedding_deleted_at then find? (λ m. same m.user_id actor) db.members else none

-- `tenant(actor, weddingId, tx)`
unfoldable pub tenant : Text → Action TenantContext
tenant actor = do
  row ← query (membership actor)
  m ← needed not_found row
  query (λ db. context actor db m)

unfoldable pub lift : Outcome DomainError (Unit {0}) → Action (Unit {0})
lift r w = (r, w)

-- `requireCapability(await this.store.tenant(actor, id, tx), capability, resource)`
unfoldable pub require_tenant : Text → Capability → Option Text → Action (Unit {0})
require_tenant actor capability resource = do
  t ← tenant actor
  lift (require_capability t capability resource)

-- `owner(actor, id, tx)`
unfoldable pub owner_only : Text → Action (Unit {0})
owner_only actor = require_tenant actor publish none

-- `legacyHold(tx, id)`
unfoldable pub legacy_hold : Action (Unit {0})
legacy_hold = do
  held ← query (λ db. any (same (codes "held")) db.legacy_transfers)
  refuse held (error 503 (codes "LEGACY_TRANSFER_HELD"))

-- `select * from std_events where … and id = $2`
unfoldable pub event_row : Text → Action Event
event_row event_id = do
  row ← query (λ db. find? (λ e. same e.id event_id) db.events)
  needed not_found row

-- `history(tx, id, pid, action, actor, reason)`, with the audit event
unfoldable pub add_history : Text → Text → Option Text → Option Text → Db → Db
add_history pass_id action actor reason db = record db {
  history =
      record { pass_id = pass_id; action = action; actor_id = actor; reason = reason } ∷ db.history;
  audits =
      record {
        actor_id = actor;
        action = codes "pass." ++ action;
        resource_id = pass_id;
        reason = reason;
      }
      ∷ db.audits;
}

-- `ticketJobs(tx, id, pid, version, actorId)`: a file row and a job for either format
unfoldable pub add_ticket_jobs : Text → ℕ → Text → Db → Db
add_ticket_jobs pass_id version actor db =
    let file : Format → TicketFile =
      λ f. record { pass_id = pass_id; pass_version = version; format = f; requested_by = actor } in
    record db { files = file pdf ∷ file jpeg ∷ db.files }

-- `metric`: `on conflict (dedupe_key) do nothing`
unfoldable pub add_metric : Text → Db → Db
add_metric key db = record db {
  metrics = if any (same key) db.metrics then db.metrics else key ∷ db.metrics;
}

module _ (ports : Ports) where
  unfoldable pub earlier : Text → Option OperationKey → Action (Option Answer)
  earlier digest none = pure none
  earlier digest (some o) =
      if same o.request_hash digest
      then pure (some o.result)
      else throw (error 409 (codes "IDEMPOTENCY_CONFLICT"))

  -- `operation(tx, id, actor, operation, key, body)`: the earlier answer under the key, if any
  unfoldable pub operation : Text → Text → Text → List (Option Text) → Action (Option Answer)
  operation actor name key body = do
    row ← query (λ db.
        find? (λ o. same o.actor_id actor && same o.operation name && same o.key key)
          db.operation_keys)
    earlier (ports.digest body) row

  -- `result(tx, id, actor, op, key, hash, result)`
  unfoldable pub add_result : Text → Text → Text → List (Option Text) → Answer → Db → Db
  add_result actor name key body result db = record db {
    operation_keys =
        record {
          actor_id = actor;
          operation = name;
          key = key;
          request_hash = ports.digest body;
          result = result;
        }
        ∷ db.operation_keys;
  }

-- The answer under the key again, or the rest of the operation
unfoldable pub once : Option Answer → Action Answer → Action Answer
once (some answer) rest = pure answer
once none rest = rest

abbrev pub ledger_unavailable : DomainError
ledger_unavailable = error 503 (codes "ADMISSION_LEDGER_UNAVAILABLE")

-- `recorded(id, pid)`: what the ledger has on the pass, nothing where no ledger is configured
unfoldable pub recorded : Circumstances → Text → Action (Option LedgerRecord)
recorded c pass_id w = elim w.ledger [
  | none ↦ (returned none, w)
  | some rows ↦
      if c.ledger_readable
      then (returned (find? (λ r. same r.pass_id pass_id) rows), w)
      else (thrown ledger_unavailable, w)
]

-- The one record of a pass is replaced.
unfoldable pub put : LedgerRecord → List LedgerRecord → List LedgerRecord
put r rows = r ∷ filter (λ q. not (same q.pass_id r.pass_id)) rows

-- `if (admissionLedger) try { write(record) } catch { throw … }`
unfoldable pub write_ledger : Writing → LedgerRecord → Action (Unit {0})
write_ledger how r w = elim w.ledger [
  | none ↦ (returned tt, w)
  | some rows ↦ elim how [
    | written ↦ (returned tt, record w { ledger = some (put r rows) })
    | refused ↦ (thrown ledger_unavailable, w)
    | unacknowledged ↦ (thrown ledger_unavailable, record w { ledger = some (put r rows) })
  ]
]
