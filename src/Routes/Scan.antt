-- ===== src/Routes/Scan.antt =====
-- Scanning at the door: apps/web/app/api/passes/redeem/route.ts. `parse_url` gives the path of a
-- text that is a URL, and `decode_uri` is `decodeURIComponent`, which may throw.
pub mod Laws
use save_the_date.Base.{
  ℕ, suc, ◌+◌, Bool, true, false, Option, none, some, List, [], ◌∷◌, ◌++◌, Text, codes, same,
  is_empty, trim, or_else, ◌==◌, if◌then◌else◌, Outcome, returned, thrown, Run, ◌>>=◌, ◌>>◌, pure,
  throw,
}
use save_the_date.Auth.Session.{super_admin, bouncer, AuthSession}
use save_the_date.HallPasses.Model.{RedeemResult, Db}
use save_the_date.HallPasses.Redeem.{not_found, redeem_hall_pass, log_scan_attempt}
use save_the_date.Routes.Guard.{
  Fence, RouteError, malformed_uri, Response, scanned, Handler, guarded, assert_legacy_writable,
  with_legacy_write_fence,
}

-- What `decodeURIComponent` throws.
pub data UriError : Type 0 where
  malformed : UriError

-- `value.split("/").filter(Boolean)`, with the part that is being read
close_part : Text → List Text → List Text
close_part [] rest = rest
close_part (c ∷ s) rest = (c ∷ s) ∷ rest

segments_from : Text → Text → List Text
segments_from part [] = close_part part []
segments_from part (c ∷ s) = elim (c == b'/') [
  | true ↦ close_part part (segments_from [] s)
  | false ↦ segments_from (part ++ c ∷ []) s
]

pub segments : Text → List Text
unfolding segments_from close_part
segments value = segments_from [] value

-- `segments[verifyIndex + 1]`, where the first `verify` stands before it
after_verify : List Text → Option Text
after_verify [] = none
after_verify (s ∷ []) = none
after_verify (s ∷ (t ∷ rest)) =
    let later = after_verify (t ∷ rest) in if same s (codes "verify") then some t else later

-- `segments.at(-1) ?? whole`
last_segment : Text → List Text → Text
last_segment whole [] = whole
last_segment whole (s ∷ rest) = last_segment s rest

module _ (parse_url : Text → Option Text) (decode_uri : Text → Option Text) where
  -- The `try` block: a text that is no URL, a path without `verify`, and a segment that does not
  -- decode all lead to the code below it.
  from_url : Text → Option Text
  from_url trimmed = elim (parse_url trimmed) [
    | none ↦ none
    | some path ↦ elim (after_verify (segments path)) [ none ↦ none | some s ↦ decode_uri s ]
  ]

  from_text : Text → Outcome UriError Text
  from_text trimmed = elim (decode_uri (last_segment trimmed (segments trimmed))) [
    | none ↦ thrown malformed
    | some token ↦ returned token
  ]

  extract_trimmed : Text → Outcome UriError Text
  extract_trimmed [] = returned []
  extract_trimmed (c ∷ s) = elim (from_url (c ∷ s)) [
    | none ↦ from_text (c ∷ s)
    | some token ↦ returned token
  ]

  -- `extractToken(value)`
  pub extract_token : Text → Outcome UriError Text
  extract_token value = extract_trimmed (trim value)

  module _ (upper : Text → Text) (now fresh : ℕ) where
    -- The rest of the handler, for the token that was read.
    pub scan_token : Text → AuthSession → Handler
    scan_token [] session db = (
      returned (scanned not_found),
      log_scan_attempt upper (codes "EMPTY") (some session.email) not_found fresh now db,
    )
    scan_token (c ∷ s) session db =
        let (result, db') = redeem_hall_pass upper (c ∷ s) (some session.email) now db in
        (
          returned (scanned result),
          log_scan_attempt upper (c ∷ s) (some session.email) result fresh now db',
        )

    -- What `extractToken` throws leaves the handler.
    rethrow : Outcome UriError Text → Run Db RouteError Text
    rethrow (thrown malformed) = throw malformed_uri
    rethrow (returned token) = pure token

    pub read_token : Option Text → Run Db RouteError Text
    read_token body = rethrow (extract_token (or_else body []))

    -- `POST`, for the `value` of the body
    unfoldable pub post_redeem : Fence → Option AuthSession → Option Text → Handler
    post_redeem fence session body = with_legacy_write_fence (
        guarded session (super_admin ∷ bouncer ∷ [])
          λ s. do assert_legacy_writable fence; token ← read_token body; scan_token token s)
