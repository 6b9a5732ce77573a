-- ===== src/Scanner.antt =====
-- The scanner page of the original site: apps/web/src/components/scanner/HallPassScanner.tsx.
pub mod Screen
pub mod Entry
pub mod Session
pub mod Tests
