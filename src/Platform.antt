-- ===== src/Platform.antt =====
-- The rebuilt platform: capabilities of packages/domain/src/index.ts, entry passes of
-- packages/persistence/src/passes.ts and background jobs of packages/persistence/src/jobs.ts.
pub mod Capability
pub mod Admission
pub mod Households
pub mod Csv
pub mod Jobs
pub mod Tests
