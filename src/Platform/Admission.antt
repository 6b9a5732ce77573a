-- ===== src/Platform/Admission.antt =====
-- Entry passes of one wedding: packages/persistence/src/passes.ts over the tables of
-- packages/persistence/migrations/009_guests_rsvp.sql and 011_admission.sql.
pub mod Model
pub mod Guards
pub mod Passes
pub mod Control
pub mod Redeem
pub mod Scan
pub mod Correct
pub mod Life
pub mod Effects
pub mod Steady
pub mod Lifecycle
pub mod Issuing
pub mod Reissuing
pub mod Admitting
pub mod Correcting
pub mod Leaves
pub mod Gate
pub mod Judging
pub mod Scanned
pub mod Replay
pub mod Trace
