-- ===== src/Auth/Session.antt =====
-- `AppRole`, `AuthSession` and `canAccessRole` of apps/web/src/lib/auth.ts.
pub mod Roles
use save_the_date.Base.{ℕ, Bool, true, false, Option, none, some, List, Text, any}

pub data AppRole : Type 0 where
  super_admin bouncer : AppRole

-- A session: who signed in, and when, in milliseconds.
pub record AuthSession : Type 0 where
  pub user_id : Text
  pub email : Text
  pub role : AppRole
  pub issued_at : ℕ

same_role : AppRole → AppRole → Bool
same_role super_admin super_admin = true
same_role super_admin bouncer = false
same_role bouncer super_admin = false
same_role bouncer bouncer = true

-- `canAccessRole(session, allowedRoles)`
unfoldable pub can_access_role : Option AuthSession → List AppRole → Bool
unfolding same_role
can_access_role none allowed = false
can_access_role (some session) allowed = any (λ role. same_role role session.role) allowed
