-- ===== src/Auth/Session/Roles.antt =====
-- Which sessions `canAccessRole` lets through for the lists of roles that the handlers use.
use save_the_date.Base.{◌≡◌, refl, true, some, [], ◌∷◌, any}
use save_the_date.Auth.Session.{
  AppRole, super_admin, bouncer, AuthSession, same_role, can_access_role,
}

one_of_both : (role : AppRole) → any (λ r. same_role r role) (super_admin ∷ bouncer ∷ []) ≡ true
unfolding same_role
one_of_both super_admin = refl
one_of_both bouncer = refl

-- There are no other roles.
pub can_access-both :
    (s : AuthSession) → can_access_role (some s) (super_admin ∷ bouncer ∷ []) ≡ true
unfolding can_access_role
can_access-both s = one_of_both s.role

is_admin :
    (role : AppRole) → any (λ r. same_role r role) (super_admin ∷ []) ≡ true → role ≡ super_admin
unfolding same_role
is_admin super_admin h = refl
is_admin bouncer h = cc

-- Only administrators pass the test of the other handlers.
pub can_access-super_admin :
    (s : AuthSession) → can_access_role (some s) (super_admin ∷ []) ≡ true → s.role ≡ super_admin
unfolding can_access_role
can_access-super_admin s h = is_admin s.role h
