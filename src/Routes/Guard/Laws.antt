-- ===== src/Routes/Guard/Laws.antt =====
-- How a handler for administrators can begin.
use save_the_date.Base.{
  ◌≡◌, refl, ◌≢◌, Bool, true, false, Option, none, some, [], ◌∷◌, Outcome, returned, Bool-cases,
  inl, inr,
}
use save_the_date.Auth.Session.{super_admin, AuthSession, can_access_role}
use save_the_date.HallPasses.Model.{Db}
use save_the_date.Routes.Guard.{
  Fence, absent, empty, row, RouteError, Response, unauthorized, frozen, Handler, guarded,
  assert_legacy_writable, answer_frozen, with_legacy_write_fence, administered,
}

-- Whether the session is an administrator's.
abbrev pub is_admin : Option AuthSession → Bool
is_admin session = can_access_role session (super_admin ∷ [])

module _ (k : AuthSession → Handler) (db : Db) where
  pub administered-unauthorized :
      (fence : Fence) (session : Option AuthSession)
      → is_admin session ≡ false
      → administered fence session k db ≡ (returned unauthorized, db)
  unfolding with_legacy_write_fence guarded answer_frozen
  administered-unauthorized fence none h = refl
  administered-unauthorized fence (some s) h = rw h refl

  pub administered-frozen :
      (session : Option AuthSession)
      → is_admin session ≡ true
      → administered (row true) session k db ≡ (returned frozen, db)
  unfolding with_legacy_write_fence guarded answer_frozen assert_legacy_writable can_access_role
  administered-frozen none h = cc
  administered-frozen (some s) h = rw h refl

  pub administered_open :
      (fence : Fence) (s : AuthSession)
      → is_admin (some s) ≡ true
      → fence ≢ row true
      → administered fence (some s) k db ≡ answer_frozen (k s db)
  unfolding with_legacy_write_fence guarded answer_frozen assert_legacy_writable
  administered_open absent s h w = rw h refl
  administered_open empty s h w = rw h refl
  administered_open (row false) s h w = rw h refl
  administered_open (row true) s h w = absurd (w refl)

-- A statement about a handler for administrators, from its three ways to begin.
pub administered-elim :
    (P : Outcome RouteError Response × Db → Type 0) (k : AuthSession → Handler) (db : Db)
    (fence : Fence) (session : Option AuthSession)
    → (is_admin session ≡ false → P (returned unauthorized, db))
    → (fence ≡ row true → P (returned frozen, db))
    → ((s : AuthSession)
        → session ≡ some s
        → is_admin session ≡ true
        → fence ≢ row true
        → P (answer_frozen (k s db)))
    → P (administered fence session k db)
unfolding can_access_role
administered-elim P k db fence none u f w =
    rw (administered-unauthorized k db fence none refl) (u refl)
administered-elim P k db (row true) (some s) u f w = elim (Bool-cases (is_admin (some s))) [
  | inl h ↦ rw (administered-frozen k db (some s) h) (f refl)
  | inr h ↦ rw (administered-unauthorized k db (row true) (some s) h) (u h)
]
administered-elim P k db fence (some s) u f w = elim (Bool-cases (is_admin (some s))) [
  | inl h ↦ rw (administered_open k db fence s h (cc)) (w s refl h (cc))
  | inr h ↦ rw (administered-unauthorized k db fence (some s) h) (u h)
]
