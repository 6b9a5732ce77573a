-- ===== src/Routes.antt =====
-- The handlers of the original site under apps/web/app/api/passes and
-- apps/web/app/api/ticket-settings, with the guards that they share.
pub mod Guard
pub mod Scan
pub mod Issue
pub mod Administer
pub mod Refusals
mod Tests
