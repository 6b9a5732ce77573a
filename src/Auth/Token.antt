-- ===== src/Auth/Token.antt =====
-- The signed session cookie: `createSessionToken` and `verifySessionToken` of
-- apps/web/src/lib/auth.ts. The environment gives the signature (HMAC-SHA256 in base64url), the
-- base64url coding and JSON; what `JSON.parse` gives is read through the fields that the code looks
-- at. Instants are natural numbers of milliseconds.
pub mod Laws
use save_the_date.Base.{
  true, false, ℕ, ◌-◌, ◌*◌, Bool, false, not, ◌&&◌, ◌||◌, Option, none, some, List, [], ◌∷◌, ◌++◌,
  Text, codes, same, is_empty, leb, ◌==◌, if◌then◌else◌, Outcome, returned, thrown,
}
use save_the_date.Auth.Session.{AppRole, AuthSession}

-- The value that `JSON.parse` gave, as the code reads it: a role that is none of the two known
-- ones, and a missing or wrong `issuedAt`, are `none`; a missing id or email is the empty text.
pub record Parsed : Type 0 where
  pub user_id : Text
  pub email : Text
  pub role : Option AppRole
  pub issued_at : Option ℕ

-- `JSON.stringify` and `JSON.parse`, which throws on a text that is no JSON or a value that has no
-- fields; base64url; and the HMAC of a text under a secret.
pub record Codec : Type 0 where
  pub stringify : AuthSession → Text
  pub parse : Text → Option Parsed
  pub encode : Text → Text
  pub decode : Text → Text
  pub hmac : Text → Text → Text

pub data AuthError : Type 0 where
  missing_secret : AuthError

-- Twelve hours.
abbrev pub session_ttl_ms : ℕ
session_ttl_ms = 1000 * 60 * 60 * 12

-- `token.split(".")`, with the part that is being read
split_from : Text → Text → List Text
split_from part [] = part ∷ []
split_from part (c ∷ s) = elim (c == b'.') [
  | true ↦ part ∷ split_from [] s
  | false ↦ split_from (part ++ c ∷ []) s
]

pub split_dots : Text → List Text
unfolding split_from
split_dots token = split_from [] token

-- `const [payload, signature] = …`: a part that is missing is `undefined`, which is falsy as the
-- empty text is.
pub first_part : List Text → Text
first_part [] = []
first_part (p ∷ ps) = p

pub second_part : List Text → Text
unfolding first_part
second_part [] = []
second_part (p ∷ ps) = first_part ps

module _ (codec : Codec) where
  -- `sign(value)`, which reads the secret
  sign : Option Text → Text → Outcome AuthError Text
  sign none value = thrown missing_secret
  sign (some []) value = thrown missing_secret
  sign (some (c ∷ secret)) value = returned (codec.hmac (c ∷ secret) value)

  -- `createSessionToken(user)` at the instant `now`
  unfoldable pub create_session_token :
      Option Text → Text → Text → AppRole → ℕ → Outcome AuthError Text
  unfolding sign
  create_session_token secret id email role now =
      let payload =
        codec.encode (
          codec.stringify (record { user_id = id; email = email; role = role; issued_at = now })) in
      elim (sign secret payload) [
        | thrown e ↦ thrown e
        | returned signature ↦ returned (payload ++ (codes "." ++ signature))
      ]

  -- `Date.now() - session.issuedAt <= sessionTtlMs`
  is_fresh : ℕ → Option ℕ → Bool
  is_fresh now none = false
  is_fresh now (some issued_at) = leb (now - issued_at) session_ttl_ms

  -- `isKnownRole && hasIdentity && isFresh ? session : null`
  accept : ℕ → Option Parsed → Option AuthSession
  accept now none = none
  accept now (some p) = elim p.role [
    | none ↦ none
    | some role ↦ elim p.issued_at [
      | none ↦ none
      | some issued_at ↦
          if not (is_empty p.user_id) && not (is_empty p.email) && is_fresh now (some issued_at)
          then some
              (record { user_id = p.user_id; email = p.email; role = role; issued_at = issued_at })
          else none
    ]
  ]

  check_signature :
      Text → Text → ℕ → Outcome AuthError Text → Outcome AuthError (Option AuthSession)
  check_signature payload signature now (thrown e) = thrown e
  check_signature payload signature now (returned expected) =
      if same expected signature
      then returned (accept now (codec.parse (codec.decode payload)))
      else returned none

  verify_parts : Option Text → Text → Text → ℕ → Outcome AuthError (Option AuthSession)
  verify_parts secret payload signature now =
      if is_empty payload || is_empty signature
      then returned none
      else check_signature payload signature now (sign secret payload)

  -- `verifySessionToken(token)` at the instant `now`
  pub verify_session_token : Option Text → Option Text → ℕ → Outcome AuthError (Option AuthSession)
  verify_session_token secret none now = returned none
  verify_session_token secret (some []) now = returned none
  verify_session_token secret (some (c ∷ token)) now =
      let parts = split_dots (c ∷ token) in
      verify_parts secret (first_part parts) (second_part parts) now
