-- ===== src/Platform/Capability.antt =====
-- Who may do what in a wedding: `requireCapability` and `requireRecentAuthentication` of
-- packages/domain/src/index.ts, with `Role` of packages/contracts/src/index.ts.
pub mod Laws
use save_the_date.Base.{
  ℕ, ◌+◌, ◌*◌, Bool, true, false, not, ◌&&◌, ◌||◌, Option, none, some, List, Text, codes, same,
  is_empty, any, if◌then◌else◌, ltb, Outcome, returned, thrown,
}

pub data Role : Type 0 where
  owner co_owner planner media_contributor security : Role

pub data Capability : Type 0 where
  read edit publish members guests media scan primary : Capability

pub record DomainError : Type 0 where
  pub status : ℕ
  pub error_code : Text

abbrev pub not_found : DomainError
not_found = record { status = 404; error_code = codes "NOT_FOUND" }

pub record TenantContext : Type 0 where
  pub ownership_recovery_hold : Bool
  pub wedding_id : Text
  pub actor_id : Text
  pub role : Role
  pub event_ids : List Text
  pub album_ids : List Text

abbrev is_owner : Role → Bool
is_owner owner = true
is_owner co_owner = true
is_owner _ = false

abbrev is_primary : Role → Bool
is_primary owner = true
is_primary _ = false

abbrev is_planner : Role → Bool
is_planner planner = true
is_planner _ = false

abbrev is_contributor : Role → Bool
is_contributor planner = true
is_contributor media_contributor = true
is_contributor _ = false

abbrev is_security : Role → Bool
is_security security = true
is_security _ = false

-- `!!resourceId && ids.includes(resourceId)`
unfoldable pub covers : List Text → Option Text → Bool
covers ids none = false
covers ids (some r) = not (is_empty r) && any (same r) ids

-- `['primary','publish','members'].includes(capability)`
abbrev pub is_held : Capability → Bool
is_held primary = true
is_held publish = true
is_held members = true
is_held _ = false

unfoldable pub allowed : TenantContext → Capability → Option Text → Bool
allowed t primary r = is_primary t.role
allowed t read r = true
allowed t publish r = is_owner t.role
allowed t members r = is_owner t.role
allowed t edit r = is_owner t.role || is_planner t.role
allowed t guests r = is_owner t.role || is_planner t.role
allowed t media r = is_owner t.role || (is_contributor t.role && covers t.album_ids r)
allowed t scan r = is_owner t.role || (is_security t.role && covers t.event_ids r)

-- `requireCapability(tenant, capability, resourceId)`
unfoldable pub require_capability :
    TenantContext → Capability → Option Text → Outcome DomainError (Unit {0})
require_capability t c r =
    if t.ownership_recovery_hold && is_held c
    then thrown (record { status = 409; error_code = codes "OWNERSHIP_REVIEW_REQUIRED" })
    else if not (allowed t c r)
    then thrown not_found
    else returned tt

-- `requireRecentAuthentication(actor, now)`, in milliseconds since the epoch
unfoldable pub require_recent_authentication : ℕ → ℕ → Outcome DomainError (Unit {0})
require_recent_authentication reauthenticated_at now =
    if ltb (reauthenticated_at + 15 * 60 * 1000) now
    then thrown (record { status = 403; error_code = codes "REAUTH_REQUIRED" })
    else returned tt
