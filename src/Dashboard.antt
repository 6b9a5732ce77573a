-- ===== src/Dashboard.antt =====
-- The dashboard of the original site: apps/web/src/components/admin/PassDashboard.tsx.
pub mod Form
pub mod Panel
pub mod Tests
