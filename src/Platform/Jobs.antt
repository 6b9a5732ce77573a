-- ===== src/Platform/Jobs.antt =====
-- The queue of background jobs: `lease`, `ack` and `fail` of packages/persistence/src/jobs.ts, with
-- the heartbeat of `processOne`, over the rows of `std_jobs`. Every query is one step, so that a
-- list of them is an interleaving of any number of workers. Times are in milliseconds.
pub mod Laws
use save_the_date.Base.{
  ℕ, ◌+◌, ◌*◌, ◌^◌, suc, min, Bool, true, false, not, ◌&&◌, ◌||◌, Option, none, some, List, [], ◌∷◌,
  Text, codes, same, filter, update_where, if◌then◌else◌, leb, ltb, ◌==◌,
}

pub data JobState : Type 0 where
  pending leased running succeeded failed cancelled unknown_external : JobState

pub record JobRow : Type 0 where
  pub id : Text
  pub state : JobState
  pub lease_owner : Option Text
  pub lease_until : Option ℕ
  pub retry_at : ℕ
  pub attempts : ℕ
  pub result : Option Text
  pub error_code : Option Text
  pub created_at : ℕ

-- What a worker keeps of the job that it leased
pub record Job : Type 0 where
  pub id : Text
  pub attempts : ℕ
  pub lease_owner : Text

abbrev pub is_pending : JobState → Bool
is_pending pending = true
is_pending _ = false

-- `state in ('leased','running')`
abbrev pub is_working : JobState → Bool
is_working leased = true
is_working running = true
is_working _ = false

-- `lease_until < now()`, which is unknown where there is no lease
abbrev pub has_lapsed : ℕ → Option ℕ → Bool
has_lapsed now none = false
has_lapsed now (some until) = ltb until now

-- The rows that a worker may take
unfoldable pub is_ready : ℕ → JobRow → Bool
is_ready now j =
    (is_pending j.state && leb j.retry_at now)
    || (is_working j.state && has_lapsed now j.lease_until)

-- `order by created_at limit 1`; which of two rows of one time comes first is the database's choice,
-- here the one that stands first.
unfoldable pub older : JobRow → Option JobRow → JobRow
older j none = j
older j (some k) = if leb j.created_at k.created_at then j else k

unfoldable pub oldest : List JobRow → Option JobRow
oldest [] = none
oldest (j ∷ js) = some (older j (oldest js))

unfoldable pub as_leased : Text → ℕ → JobRow → JobRow
as_leased owner now j = record j {
  state = leased;
  lease_owner = some owner;
  lease_until = some (now + 60 * 1000);
  attempts = suc j.attempts;
}

unfoldable pub taken : Text → JobRow → Job
taken owner j = record { id = j.id; attempts = suc j.attempts; lease_owner = owner }

unfoldable pub lease_found : Text → ℕ → List JobRow → Option JobRow → Option Job × List JobRow
lease_found owner now jobs none = (none, jobs)
lease_found owner now jobs (some j) =
    (some (taken owner j), update_where (λ k. same k.id j.id) (as_leased owner now) jobs)

-- `lease(owner)`
unfoldable pub lease : Text → ℕ → List JobRow → Option Job × List JobRow
lease owner now jobs = lease_found owner now jobs (oldest (filter (is_ready now) jobs))

abbrev pub owned_by : Text → Option Text → Bool
owned_by owner none = false
owned_by owner (some o) = same o owner

-- `id = $1 and lease_owner = $2 and state in ('leased','running')`
unfoldable pub is_held_by : Text → Text → JobRow → Bool
is_held_by id owner j = same j.id id && (owned_by owner j.lease_owner && is_working j.state)

-- The heartbeat of a job of another type than `email`
unfoldable pub as_beaten : ℕ → JobRow → JobRow
as_beaten now j = record j { lease_until = some (now + 60 * 1000) }

unfoldable pub heartbeat : Text → Text → ℕ → List JobRow → List JobRow
heartbeat id owner now jobs = update_where (is_held_by id owner) (as_beaten now) jobs

unfoldable pub as_acknowledged : Text → JobRow → JobRow
as_acknowledged result j = record j { state = succeeded; result = some result; lease_until = none }

-- `ack(job, result)`
unfoldable pub ack : Job → Text → List JobRow → List JobRow
ack job result jobs = update_where (is_held_by job.id job.lease_owner) (as_acknowledged result) jobs

-- The codes after which the effect may have happened
unfoldable pub is_uncertain : Text → Bool
is_uncertain error_code =
    same error_code (codes "UNCERTAIN_SEND")
    || same error_code (codes "AI_SUBMISSION_UNCERTAIN")
    || same error_code (codes "AI_PROVIDER_UNAVAILABLE")

unfoldable pub state_after : Job → Text → Bool → JobState
state_after job error_code retryable =
    if is_uncertain error_code
    then unknown_external
    else if retryable && ltb job.attempts 5
    then pending
    else failed

unfoldable pub as_failed : Job → Text → Bool → ℕ → JobRow → JobRow
as_failed job error_code retryable now j = record j {
  state = state_after job error_code retryable;
  error_code = some error_code;
  retry_at = now + min 300 (2 ^ job.attempts) * 1000;
  lease_until = none;
}

-- `fail(job, code, retryable)`
unfoldable pub fail : Job → Text → Bool → ℕ → List JobRow → List JobRow
fail job error_code retryable now jobs =
    update_where (is_held_by job.id job.lease_owner) (as_failed job error_code retryable now) jobs

-- One query of a worker
pub data Query : Type 0 where
  leasing : Text → ℕ → Query
  beating : Text → Text → ℕ → Query
  acknowledging : Job → Text → Query
  failing : Job → Text → Bool → ℕ → Query

unfoldable pub answer : Query → List JobRow → List JobRow
answer (leasing owner now) jobs = (lease owner now jobs).1
answer (beating id owner now) jobs = heartbeat id owner now jobs
answer (acknowledging job result) jobs = ack job result jobs
answer (failing job error_code retryable now) jobs = fail job error_code retryable now jobs

unfoldable pub work : List Query → List JobRow → List JobRow
work [] jobs = jobs
work (q ∷ qs) jobs = work qs (answer q jobs)
