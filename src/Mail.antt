-- ===== src/Mail.antt =====
-- Mail to guests of the original site: apps/web/src/lib/maileroo.ts,
-- apps/web/src/lib/passEmail.ts and apps/web/src/lib/passPdf.ts.
pub mod Address
pub mod Escape
pub mod Message
pub mod Batches
pub mod Pdf
pub mod Tests
