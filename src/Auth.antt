-- ===== src/Auth.antt =====
-- Sessions of the original site: apps/web/src/lib/auth.ts, apps/web/src/lib/users.ts and the
-- handlers of apps/web/app/api/auth.
pub mod Session
pub mod Token
pub mod Login
mod Tests
