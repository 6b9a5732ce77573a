-- ===== src/Platform/Admission/Model.antt =====
-- The tables that the passes of a wedding live in, the rows of one wedding each, so that the
-- column `wedding_id` is left out: packages/persistence/migrations/001_foundation.sql,
-- 009_guests_rsvp.sql and 011_admission.sql, and the ledger of
-- packages/adapters/src/admission-ledger.ts. Times are in milliseconds since the epoch.
use save_the_date.Base.{ℕ, ◌+◌, ◌-◌, ◌*◌, Bool, Option, none, some, List, Text, Run}
use save_the_date.Platform.Capability.{Role, DomainError}
use save_the_date.Platform.Households.{
  Party, Grant, GuestSession, Eligibility, Questions, Responded, Queued,
}
pub use save_the_date.Platform.Households.{
  RsvpState, unanswered, pending, confirmed, declined, waitlisted,
}

pub data PassStatus : Type 0 where
  active revoked used expired : PassStatus

pub data Policy : Type 0 where
  disabled automatic owner_policy : Policy

pub data Format : Type 0 where
  jpeg pdf : Format

-- A row of `std_passes`
pub record Pass : Type 0 where
  pub id : Text
  pub attendee_id : Text
  pub event_id : Text
  pub status : PassStatus
  pub credential_hash : Text
  pub manual_hash : Text
  pub encrypted_payload : Option Text
  pub version : ℕ
  pub used_at : Option ℕ
  pub used_by : Option Text
  pub issued_at : ℕ
  pub revoked_reason : Option Text

-- A row of `std_events`, with the columns that admission and the responses read
pub record Event : Type 0 where
  pub id : Text
  pub starts_at : Option ℕ
  pub admission_starts_at : Option ℕ
  pub admission_ends_at : Option ℕ
  pub admission_policy : Policy
  pub capacity : Option ℕ
  pub confirmed_count : ℕ
  pub ends_at : Option ℕ
  pub rsvp_cutoff : Option ℕ
  pub manual_approval : Bool

pub record Attendee : Type 0 where
  pub id : Text
  pub name : Text
  pub version : ℕ
  pub deleted_at : Option ℕ
  pub party_id : Text
  pub email : Option Text
  pub plus_one_of : Option Text

pub record Rsvp : Type 0 where
  pub attendee_id : Text
  pub event_id : Text
  pub state : RsvpState
  pub version : ℕ
  pub meal : Text
  pub dietary : Text
  pub accessibility : Text
  pub note : Text

pub record Reservation : Type 0 where
  pub attendee_id : Text
  pub event_id : Text

pub record Admission : Type 0 where
  pub id : Text
  pub pass_id : Text
  pub event_id : Text
  pub attendee_id : Text
  pub actor_id : Text

pub data ScanState : Type 0 where
  admitted already_used scan_disabled window_required outside_window scan_revoked : ScanState
  not_confirmed invalid : ScanState

-- The outcome of a scan, without its message, which the state decides.
pub record ScanOutcome : Type 0 where
  pub state : ScanState
  pub name : Option Text
  pub used_at : Option ℕ

-- A row of `std_scan_operations`
pub record ScanOperation : Type 0 where
  pub event_id : Text
  pub actor_id : Text
  pub operation_key : Text
  pub request_hash : Text
  pub outcome : ScanOutcome
  pub pass_id : Option Text

-- What an operation under a key answers: `{id, version}`, `{corrected, admissionPreserved}` or the
-- `responses` of a household.
pub data Answer : Type 0 where
  responded : List Responded → Answer
  pass_version : Text → ℕ → Answer
  corrected : Answer

-- A row of `std_operation_keys`
pub record OperationKey : Type 0 where
  pub actor_id : Text
  pub operation : Text
  pub key : Text
  pub request_hash : Text
  pub result : Answer

pub record History : Type 0 where
  pub pass_id : Text
  pub action : Text
  pub actor_id : Option Text
  pub reason : Option Text

pub record Audit : Type 0 where
  pub actor_id : Option Text
  pub action : Text
  pub resource_id : Text
  pub reason : Option Text

-- What `correction` is asked for; an empty name is none.
pub data Corrected : Type 0 where
  to_confirmed to_declined : Corrected

pub record CorrectionInput : Type 0 where
  pub attendee_id : Text
  pub event_id : Text
  pub name : Text
  pub state : Option Corrected
  pub reason : Text

-- A row of `std_admission_corrections`
pub record Correction : Type 0 where
  pub actor_id : Text
  pub previous_name : Text
  pub previous_state : Option RsvpState
  pub correction : CorrectionInput

-- A row of `std_pass_files` and the job that renders it
pub record TicketFile : Type 0 where
  pub pass_id : Text
  pub pass_version : ℕ
  pub format : Format
  pub requested_by : Text

pub record Membership : Type 0 where
  pub user_id : Text
  pub role : Role

pub record Assignment : Type 0 where
  pub user_id : Text
  pub resource_id : Text

pub record Db : Type 0 where
  pub wedding_id : Text
  pub wedding_deleted_at : Option ℕ
  pub archived : Bool
  pub primary_owner_id : Text
  pub parties : List Party
  pub guest_grants : List Grant
  pub guest_sessions : List GuestSession
  pub attendee_events : List Eligibility
  pub questions : List Questions
  pub jobs : List Queued
  pub ownership_recovery_hold : Bool
  pub members : List Membership
  pub member_events : List Assignment
  pub member_albums : List Assignment
  pub legacy_transfers : List Text
  pub recovery_holds : List Text
  pub events : List Event
  pub attendees : List Attendee
  pub rsvps : List Rsvp
  pub reservations : List Reservation
  pub passes : List Pass
  pub admissions : List Admission
  pub scan_operations : List ScanOperation
  pub operation_keys : List OperationKey
  pub corrections : List Correction
  pub files : List TicketFile
  pub history : List History
  pub audits : List Audit
  pub metrics : List Text

pub data LedgerState : Type 0 where
  intent committed : LedgerState

pub record LedgerRecord : Type 0 where
  pub state : LedgerState
  pub pass_id : Text
  pub event_id : Text
  pub attendee_id : Text
  pub admission_id : Text
  pub actor_id : Text
  pub operation_key : Text
  pub pass_version : ℕ
  pub recorded_at : ℕ

-- The database, and outside its transactions the ledger of the admissions, `none` where none is
-- configured, and the one of the erasures.
pub record World : Type 0 where
  pub db : Db
  pub erasures : List Text
  pub ledger : Option (List LedgerRecord)

abbrev pub Action {ℓ} : Type ℓ → Type ℓ
Action A = Run World DomainError A

-- How a write to the storage ends: done, not done, or done without an acknowledgement.
pub data Writing : Type 0 where
  written refused unacknowledged : Writing

-- What the operations use of other packages and of the system: `hash` and `candidates` of the
-- keyed hash, `digest` of a request (its JSON text hashed), `seal` of the admission key (`none`
-- where none is configured).
pub record Ports : Type 0 where
  pub lower : Text → Text
  pub upper : Text → Text
  pub hash : Text → Text
  pub candidates : Text → List Text
  pub digest : List (Option Text) → Text
  pub decimal : ℕ → Text
  pub seal : Option (Text → Text → Text → Text)

-- What one call draws and meets: the clock when it decides and when it writes, fresh ids and
-- credentials, and how the storage of the ledgers behaves.
pub record Circumstances : Type 0 where
  pub now : ℕ
  pub written_at : ℕ
  pub fresh_id : Text
  pub credential : Text
  pub manual_credential : Text
  pub ledger_readable : Bool
  pub intent_write : Writing
  pub commit_write : Writing
  pub erasure_write : Text → Writing

pub record Window : Type 0 where
  pub start : ℕ
  pub finish : ℕ

-- `x ?? (starts_at ? … : null)`
unfoldable pub from_start : Option ℕ → (ℕ → ℕ) → Option ℕ → Option ℕ
from_start (some t) f starts_at = some t
from_start none f none = none
from_start none f (some t) = some (f t)

unfoldable pub both : Option ℕ → Option ℕ → Option Window
both (some start) (some finish) = some (record { start = start; finish = finish })
both (some start) none = none
both none finish = none

-- `admissionWindow(event)`; a start within the first two hours of the epoch is cut off at 0.
unfoldable pub admission_window : Event → Option Window
admission_window e =
    both (from_start e.admission_starts_at (λ t. t - 2 * 3600000) e.starts_at)
      (from_start e.admission_ends_at (λ t. t + 12 * 3600000) e.starts_at)
