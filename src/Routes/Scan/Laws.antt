-- ===== src/Routes/Scan/Laws.antt =====
-- Every scan that is answered is logged with its answer, and a scan that is refused changes nothing.
use save_the_date.HallPasses.Redeem.Once.{redeem_keeps_scans}
use save_the_date.Base.{
  ap, sym, subst, ◌>>=◌, ℕ, ◌≡◌, refl, ◌≢◌, true, false, Option, none, some, List, [], ◌∷◌, Text,
  or_else, Outcome, returned, thrown,
}
use save_the_date.Auth.Session.{AuthSession, can_access_role}
use save_the_date.Auth.Session.Roles.{can_access-both}
use save_the_date.HallPasses.Model.{HallPass, ScanAttempt, RedeemResult, Db}
use save_the_date.HallPasses.Redeem.{not_found, redeem_hall_pass, log_scan_attempt}
use save_the_date.Routes.Guard.{
  Fence, absent, empty, row, RouteError, malformed_uri, Response, unauthorized, frozen, scanned,
  guarded, assert_legacy_writable, with_legacy_write_fence, answer_frozen,
}
use save_the_date.Routes.Scan.{
  UriError, malformed, rethrow, extract_token, scan_token, read_token, post_redeem,
}

-- The log entry of an answer.
pub record IsLogged (session : AuthSession) (result : RedeemResult)
    (before after : List ScanAttempt) : Type 0 where
  pub entry : ScanAttempt
  pub added : after ≡ entry ∷ before
  pub answer : entry.result ≡ result.status
  pub pass : entry.hall_pass_id ≡ result.id
  pub scanner : entry.scanner_email ≡ some session.email

module _ (parse_url decode_uri : Text → Option Text) (upper : Text → Text) (now fresh : ℕ) where
  abbrev entry_of : Text → AuthSession → RedeemResult → ScanAttempt
  entry_of token s result = record {
    id = fresh;
    hall_pass_id = result.id;
    token = upper token;
    scanner_email = some s.email;
    result = result.status;
    scanned_at = now;
  }

  -- The answer to a token and the passes after it: an empty token is invalid, any other is
  -- redeemed.
  abbrev pub outcome_of : Text → AuthSession → Db → RedeemResult × List HallPass
  outcome_of [] s db = (not_found, db.passes)
  outcome_of (c ∷ t) s db =
      let (r, db') = redeem_hall_pass upper (c ∷ t) (some s.email) now db in (r, db'.passes)

  -- How a request to redeem can end, and what it has done by then.
  abbrev pub Answered :
      Fence → Option AuthSession → Option Text → Db → Outcome RouteError Response × Db → Type 0
  Answered fence session body db (returned unauthorized, db') = (session ≡ none) × (db' ≡ db)
  Answered fence session body db (returned frozen, db') = (fence ≡ row true) × (db' ≡ db)
  Answered fence session body db (returned (scanned result), db') =
      (s : AuthSession) × (token : Text) × (session ≡ some s)
      × (fence ≢ row true)
      × (extract_token parse_url decode_uri (or_else body []) ≡ returned token)
      × (outcome_of token s db ≡ (result, db'.passes))
      × IsLogged s result db.scans db'.scans
  Answered fence session body db (thrown malformed_uri, db') =
      (extract_token parse_url decode_uri (or_else body []) ≡ thrown malformed) × (db' ≡ db)
  Answered fence session body db _ = ⊥

  scan_token-Answered :
      (token : Text) (s : AuthSession) (fence : Fence) (body : Option Text) (db : Db)
      → fence ≢ row true
      → extract_token parse_url decode_uri (or_else body []) ≡ returned token
      → Answered fence (some s) body db (scan_token parse_url decode_uri upper now fresh token s db)
  unfolding scan_token log_scan_attempt
  scan_token-Answered [] s fence body db w e = (
    s,
    [],
    refl,
    w,
    e,
    refl,
    record { entry = _; added = refl; answer = refl; pass = refl; scanner = refl },
  )
  scan_token-Answered (c ∷ t) s fence body db w e = (
    s,
    c ∷ t,
    refl,
    w,
    e,
    refl,
    record {
      entry = _;
      added =
          ap
            (λ rows.
              entry_of (c ∷ t) s (redeem_hall_pass upper (c ∷ t) (some s.email) now db).0 ∷ rows)
            (redeem_keeps_scans upper (c ∷ t) (some s.email) now db);
      answer = refl;
      pass = refl;
      scanner = refl;
    },
  )

  scan_token_unfrozen :
      (token : Text) (s : AuthSession) (db : Db)
      → answer_frozen (scan_token parse_url decode_uri upper now fresh token s db)
        ≡ scan_token parse_url decode_uri upper now fresh token s db
  unfolding scan_token answer_frozen
  scan_token_unfrozen [] s db = refl
  scan_token_unfrozen (c ∷ t) s db = refl

  writable-Answered :
      (s : AuthSession) (fence : Fence) (body : Option Text) (db : Db)
      → fence ≢ row true
      → (o : Outcome UriError Text) → extract_token parse_url decode_uri (or_else body []) ≡ o
      → Answered fence (some s) body db (
          answer_frozen (
            (rethrow parse_url decode_uri upper now fresh o >>= λ token.
            scan_token parse_url decode_uri upper now fresh token s)
              db))
  unfolding answer_frozen rethrow
  writable-Answered s fence body db w (thrown malformed) e = (e, refl)
  writable-Answered s fence body db w (returned token) e =
      subst (Answered fence (some s) body db) (sym (scan_token_unfrozen token s db))
        (scan_token-Answered token s fence body db w e)

  -- Without a session a scan is unauthorized, and while legacy writes are frozen it is answered so;
  -- either way nothing changes. Otherwise the token of the request is answered as `redeemHallPass`
  -- does, an empty one as invalid, and one entry with that answer, the pass and the scanner's email
  -- is added to the log; or the token cannot be decoded, the handler throws, and nothing is logged.
  pub post_redeem-Answered :
      (fence : Fence) (session : Option AuthSession) (body : Option Text) (db : Db)
      → Answered fence session body db
          (post_redeem parse_url decode_uri upper now fresh fence session body db)
  unfolding post_redeem with_legacy_write_fence guarded assert_legacy_writable read_token
      can_access_role
  post_redeem-Answered fence none body db = (refl, refl)
  post_redeem-Answered (row true) (some s) body db = rw (can_access-both s) (refl, refl)
  post_redeem-Answered (row false) (some s) body db =
      rw (can_access-both s) (writable-Answered s (row false) body db (cc) _ refl)
  post_redeem-Answered absent (some s) body db =
      rw (can_access-both s) (writable-Answered s absent body db (cc) _ refl)
  post_redeem-Answered empty (some s) body db =
      rw (can_access-both s) (writable-Answered s empty body db (cc) _ refl)
