-- ===== src/HallPasses/Model.antt =====
-- The rows that apps/web/src/lib/hallPasses.ts reads and writes, and the tables that hold them. A
-- table is a list with the row that was inserted last at its head. Ids are numbers, and instants
-- are milliseconds.
use save_the_date.Base.{ℕ, Bool, ◌<◌, Option, List, Text, is_none, All, Distinct}

pub data EmailStatus : Type 0 where
  not_sent sent failed : EmailStatus

pub record HallPass : Type 0 where
  pub id : ℕ
  pub ticket_number : ℕ
  pub token : Text
  pub guest_name : Option Text
  pub invite_from : Option Text
  pub created_by : Option Text
  pub created_at : ℕ
  pub used_at : Option ℕ
  pub used_by : Option Text
  pub invalidated_at : Option ℕ
  pub invalidated_by : Option Text
  pub email_recipient : Option Text
  pub email_status : EmailStatus
  pub email_sent_at : Option ℕ
  pub email_error : Option Text

-- `HallPassRedeemStatus`
pub data RedeemStatus : Type 0 where
  valid used invalid : RedeemStatus

-- `HallPassRedeemResult`
pub record RedeemResult : Type 0 where
  pub id : Option ℕ
  pub ticket_number : Option ℕ
  pub guest_name : Option Text
  pub status : RedeemStatus
  pub used_at : Option ℕ

pub record ScanAttempt : Type 0 where
  pub id : ℕ
  pub hall_pass_id : Option ℕ
  pub token : Text
  pub scanner_email : Option Text
  pub result : RedeemStatus
  pub scanned_at : ℕ

pub record TicketAvailability : Type 0 where
  pub ticket_limit : Option ℕ
  pub issued_count : ℕ
  pub remaining_count : Option ℕ

-- The one row of `ticket_settings`.
pub record TicketSettings : Type 0 where
  pub ticket_limit : Option ℕ
  pub updated_by : Option Text
  pub updated_at : ℕ

-- `hall_passes`, its ticket number sequence (the number that comes next), `ticket_settings` and
-- `scan_attempts`.
pub record Db : Type 0 where
  pub passes : List HallPass
  pub next_ticket : ℕ
  pub settings : Option TicketSettings
  pub scans : List ScanAttempt

-- `invalidated_at is null`
abbrev pub is_active : HallPass → Bool
is_active p = is_none p.invalidated_at

-- What the keys and the unique indexes of `hall_passes` keep: ids, tokens and ticket numbers do
-- not repeat, and the sequence is ahead of every ticket number.
pub record IsWellFormed (db : Db) : Type 0 where
  pub ids : Distinct HallPass.id db.passes
  pub tokens : Distinct HallPass.token db.passes
  pub numbers : Distinct HallPass.ticket_number db.passes
  pub ahead : All (λ p. p.ticket_number < db.next_ticket) db.passes
