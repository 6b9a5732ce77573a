-- ===== src/Auth/Login.antt =====
-- Signing in and out: apps/web/src/lib/users.ts and the handlers of apps/web/app/api/auth/login,
-- logout and session. `lower` is SQL's function, and `compare` is bcrypt's.
pub mod Laws
use save_the_date.Base.{
  ℕ, ◌/◌, Bool, true, false, ◌||◌, Option, none, some, List, [], ◌∷◌, Text, codes, same, is_empty,
  trim, filter, head?, any, or_else, ◌==◌, if◌then◌else◌, Outcome, returned, thrown,
}
use save_the_date.Auth.Session.{AppRole, AuthSession}
use save_the_date.Auth.Token.{
  Codec, AuthError, session_ttl_ms, create_session_token, verify_session_token,
}

pub record AppUser : Type 0 where
  pub id : Text
  pub email : Text
  pub password_hash : Text
  pub role : AppRole

-- The cookie that a response sets: its value, and how long it lasts in seconds.
pub record SessionCookie : Type 0 where
  pub value : Text
  pub max_age : ℕ

-- `getSessionMaxAgeSeconds()`
abbrev pub session_max_age_seconds : ℕ
session_max_age_seconds = session_ttl_ms / 1000

pub data LoginResponse : Type 0 where
  -- status 400 and 401
  invalid_request invalid_credentials : LoginResponse
  -- status 200 with the body and the cookie
  signed_in : Text → AppRole → SessionCookie → LoginResponse

-- The body of the request, with the fields that are absent as `none`.
pub record LoginBody : Type 0 where
  pub email : Option Text
  pub password : Option Text

module _ (codec : Codec) (lower : Text → Text) (compare : Text → Text → Bool) where
  -- `findUserByEmail(email)`
  unfoldable pub find_user_by_email : Text → List AppUser → Option AppUser
  find_user_by_email email users = head? (filter (λ u. same (lower u.email) (lower email)) users)

  -- `verifyUserPassword(user, password)`
  verify_user_password : AppUser → Text → Bool
  verify_user_password user password = compare password user.password_hash

  -- The answer with the cookie
  signed_by : AppUser → Outcome AuthError Text → Outcome AuthError LoginResponse
  signed_by user (thrown e) = thrown e
  signed_by user (returned token) =
      returned (
        signed_in user.email user.role
          (record { value = token; max_age = session_max_age_seconds }))

  sign_in : Option Text → ℕ → AppUser → Outcome AuthError LoginResponse
  sign_in secret now user =
      signed_by user (create_session_token codec secret user.id user.email user.role now)

  check_password : Option Text → ℕ → Text → Option AppUser → Outcome AuthError LoginResponse
  check_password secret now password none = returned invalid_credentials
  check_password secret now password (some user) =
      if verify_user_password user password
      then sign_in secret now user
      else returned invalid_credentials

  log_in_with : Option Text → ℕ → List AppUser → Text → Text → Outcome AuthError LoginResponse
  log_in_with secret now users email password =
      if is_empty email || is_empty password
      then returned invalid_request
      else check_password secret now password (find_user_by_email email users)

  -- `POST` of apps/web/app/api/auth/login/route.ts; a body that is no JSON is `none`
  unfoldable pub log_in :
      Option Text → ℕ → List AppUser → Option LoginBody → Outcome AuthError LoginResponse
  unfolding log_in_with check_password verify_user_password sign_in signed_by
  log_in secret now users none = returned invalid_request
  log_in secret now users (some body) =
      log_in_with secret now users (trim (or_else body.email [])) (or_else body.password [])

-- The cookie of `POST` of apps/web/app/api/auth/logout/route.ts: empty, and gone at once
pub log_out : SessionCookie
log_out = record { value = []; max_age = 0 }

-- `GET` of apps/web/app/api/auth/session/route.ts
pub record SessionStatus : Type 0 where
  pub authenticated : Bool
  pub email : Option Text
  pub role : Option AppRole

pub session_status : Option AuthSession → SessionStatus
session_status none = record { authenticated = false; email = none; role = none }
session_status (some s) = record { authenticated = true; email = some s.email; role = some s.role }
