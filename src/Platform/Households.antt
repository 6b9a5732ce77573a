-- ===== src/Platform/Households.antt =====
-- The rows of the households and their answers: the tables of
-- packages/persistence/migrations/009_guests_rsvp.sql, and the input of `submit` of
-- packages/persistence/src/guests.ts.
pub mod Access
pub mod Release
pub mod Record
pub mod Submit
pub mod Manage
pub mod Places
pub mod Taking
pub mod Ensuring
pub mod Counting
pub mod Aside
pub mod Answering
pub mod Managing
pub mod Correcting
pub mod Passing
pub mod Trace
pub mod Tests
use save_the_date.Base.{ℕ, Bool, Option, Text}

pub data RsvpState : Type 0 where
  unanswered pending confirmed declined waitlisted : RsvpState

-- A row of `std_parties`
pub record Party : Type 0 where
  pub id : Text
  pub deleted_at : Option ℕ

-- A row of `std_guest_grants`
pub record Grant : Type 0 where
  pub id : Text
  pub party_id : Text
  pub token_hash : Text
  pub code_hash : Text
  pub expires_at : ℕ
  pub revoked_at : Option ℕ

-- A row of `std_guest_sessions`
pub record GuestSession : Type 0 where
  pub id : Text
  pub grant_id : Text
  pub token_hash : Text
  pub expires_at : ℕ

-- A row of `std_attendee_events`
pub record Eligibility : Type 0 where
  pub attendee_id : Text
  pub event_id : Text

-- A row of `std_event_questions`
pub record Questions : Type 0 where
  pub event_id : Text
  pub meal : Bool
  pub dietary : Bool
  pub accessibility : Bool
  pub note : Bool

-- A row of `std_jobs` that an answer queues
pub record Queued : Type 0 where
  pub kind : Text
  pub dedupe_key : Text

pub data Choice : Type 0 where
  attending declining : Choice

-- An answer of `RsvpInput`
pub record Response : Type 0 where
  pub attendee_id : Text
  pub expected_version : ℕ
  pub attendee_version : ℕ
  pub choice : Choice
  pub name : Text
  pub meal : Text
  pub dietary : Text
  pub accessibility : Text
  pub note : Text

-- A row of the `responses` that `submit` returns
pub record Responded : Type 0 where
  pub attendee_id : Text
  pub state : RsvpState
  pub version : ℕ
