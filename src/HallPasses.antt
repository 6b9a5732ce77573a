-- ===== src/HallPasses.antt =====
-- The hall passes of the original wedding site: apps/web/src/lib/hallPasses.ts with the SQL
-- function that it calls, and the paging rules of apps/web/src/lib/hallPassPaging.ts.
pub mod Model
pub mod Update
pub mod Redeem
pub mod Create
pub mod Settings
pub mod Manage
pub mod Listing
pub mod InviteStats
pub mod Trace
pub mod Tests
