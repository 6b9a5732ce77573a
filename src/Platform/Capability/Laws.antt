-- ===== src/Platform/Capability/Laws.antt =====
-- What each role may do, as a table of the roles, and that the check grants exactly that.
use save_the_date.Base.{
  ◌≡◌, ◌≢◌, ◌↔◌, ◌⊎◌, Bool, true, false, ◌&&◌, Option, none, some, List, Text, [], ◌∷◌, same, any,
  arith, returned, same_iff,
}
use save_the_date.Platform.Capability.{
  Role, owner, co_owner, planner, media_contributor, security, Capability, read, edit, publish,
  members, guests, media, scan, primary, TenantContext, covers, is_held, allowed,
  require_capability,
}

-- The text stands in the list.
abbrev pub Among : Text → List Text → Type 0
Among t [] = ⊥
Among t (x ∷ xs) = (t ≡ x) ⊎ Among t xs

-- The resource is named and assigned.
abbrev pub Assigned : List Text → Option Text → Type 0
Assigned ids none = ⊥
Assigned ids (some r) = (r ≢ []) × Among r ids

-- The capabilities of each role: the rows of the table, the resources that it is assigned.
abbrev pub Grants : Role → List Text → List Text → Option Text → Capability → Type 0
Grants owner events albums r c = Unit
Grants co_owner events albums r primary = ⊥
Grants co_owner events albums r _ = Unit
Grants planner events albums r read = Unit
Grants planner events albums r edit = Unit
Grants planner events albums r guests = Unit
Grants planner events albums r media = Assigned albums r
Grants planner events albums r _ = ⊥
Grants media_contributor events albums r read = Unit
Grants media_contributor events albums r media = Assigned albums r
Grants media_contributor events albums r _ = ⊥
Grants security events albums r read = Unit
Grants security events albums r scan = Assigned events r
Grants security events albums r _ = ⊥

any-same_iff : (t : Text) (xs : List Text) → (any (same t) xs ≡ true) ↔ Among t xs
any-same_iff t [] = ground arith
any-same_iff t (x ∷ xs) = ground (arith, any-same_iff t xs, same_iff t x)

covers_iff : (ids : List Text) (r : Option Text) → (covers ids r ≡ true) ↔ Assigned ids r
unfolding covers
covers_iff ids none = ground arith
covers_iff ids (some []) = ground arith
covers_iff ids (some (c ∷ s)) = ground (arith, any-same_iff (c ∷ s) ids)

allowed_iff :
    (t : TenantContext) (ro : Role) (c : Capability) (r : Option Text)
    → (allowed (record t { role = ro }) c r ≡ true) ↔ Grants ro t.event_ids t.album_ids r c
unfolding allowed
allowed_iff t owner c r = ground arith
allowed_iff t co_owner c r = ground arith
allowed_iff t planner c r = ground (arith, covers_iff t.album_ids r)
allowed_iff t media_contributor c r = ground (arith, covers_iff t.album_ids r)
allowed_iff t security c r = ground (arith, covers_iff t.event_ids r)

-- A wedding whose ownership is under review keeps these capabilities back.
abbrev pub Free : Bool → Capability → Type 0
Free true publish = ⊥
Free true members = ⊥
Free true primary = ⊥
Free _ _ = Unit

is_held_iff : (hold : Bool) (c : Capability) → (hold && is_held c ≡ false) ↔ Free hold c
is_held_iff hold c = ground arith

-- The check passes exactly when no ownership review keeps the capability back and the table of
-- the roles grants it: everything to the owner, all but `primary` to a co-owner, reading, editing
-- and guests to a planner, reading to everybody, the media of an assigned album to planners and
-- media contributors, and scanning at an assigned event to security.
pub require_capability_iff :
    (t : TenantContext) (c : Capability) (r : Option Text)
    → (require_capability t c r ≡ returned tt)
      ↔ (Free t.ownership_recovery_hold c × Grants t.role t.event_ids t.album_ids r c)
unfolding require_capability
require_capability_iff t c r =
    ground (arith, is_held_iff t.ownership_recovery_hold c, allowed_iff t t.role c r)
