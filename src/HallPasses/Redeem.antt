-- ===== src/HallPasses/Redeem.antt =====
-- Redeeming a pass at the door: `redeemHallPass` and `logScanAttempt` of
-- apps/web/src/lib/hallPasses.ts, and the SQL function `redeem_hall_pass` of
-- db/migrations/008_add_ticket_numbers.sql. `upper` is `String.prototype.toUpperCase`.
pub mod Once
pub mod Answer
use save_the_date.Base.{
  ℕ, Bool, ◌&&◌, Option, none, some, List, [], ◌∷◌, map, Text, same, is_none, is_some, head?,
  filter, update_where, take, if◌then◌else◌,
}
use save_the_date.HallPasses.Model.{HallPass, RedeemStatus, valid, used, invalid, RedeemResult, Db}

-- The `where` clause of the update: the token fits, and the pass is neither used nor invalidated.
unfoldable pub is_redeemable : Text → HallPass → Bool
is_redeemable token p = same p.token token && (is_none p.used_at && is_none p.invalidated_at)

abbrev pub mark_used : ℕ → Option Text → HallPass → HallPass
mark_used now scanner p = record p { used_at = some now; used_by = scanner }

abbrev as_redeemed : HallPass → RedeemResult
as_redeemed p = record {
  id = some p.id;
  ticket_number = some p.ticket_number;
  guest_name = p.guest_name;
  status = valid;
  used_at = p.used_at;
}

-- The `case` of the second query.
pub refused_status : HallPass → RedeemStatus
refused_status p =
    if is_some p.invalidated_at then invalid else if is_some p.used_at then used else invalid

as_refused : HallPass → RedeemResult
as_refused p = record {
  id = some p.id;
  ticket_number = some p.ticket_number;
  guest_name = p.guest_name;
  status = refused_status p;
  used_at = p.used_at;
}

abbrev pub not_found : RedeemResult
not_found = record {
  id = none;
  ticket_number = none;
  guest_name = none;
  status = invalid;
  used_at = none;
}

-- The rows of the second and the third query.
refused_rows : List HallPass → List RedeemResult
refused_rows [] = not_found ∷ []
refused_rows (p ∷ ps) = map as_refused (p ∷ ps)

-- `if found then return`
redeemed_rows : List HallPass → List RedeemResult → List RedeemResult
redeemed_rows [] rest = rest
redeemed_rows (p ∷ ps) rest = map as_redeemed (p ∷ ps)

-- `redeem_hall_pass(pass_token, scanner_name)`: the rows that it returns, and the table after it.
redeem_rows : Text → Option Text → ℕ → List HallPass → List RedeemResult × List HallPass
redeem_rows token scanner now passes = (
  redeemed_rows (map (mark_used now scanner) (filter (is_redeemable token) passes))
      (refused_rows (filter (λ p. same p.token token) passes)),
  update_where (is_redeemable token) (mark_used now scanner) passes,
)

first_row : Option RedeemResult → RedeemResult
first_row none = not_found
first_row (some r) = r

module _ (upper : Text → Text) where
  -- `redeemHallPass(token, scannerName)`
  pub redeem_hall_pass : Text → Option Text → ℕ → Db → RedeemResult × Db
  redeem_hall_pass token scanner now db =
      let (rows, passes) = redeem_rows (upper token) scanner now db.passes in
      (first_row (head? (take 1 rows)), record db { passes = passes })

  -- `logScanAttempt(token, scannerEmail, result)`: `fresh` is the id of the new row.
  unfoldable pub log_scan_attempt : Text → Option Text → RedeemResult → ℕ → ℕ → Db → Db
  log_scan_attempt token scanner result fresh now db = record db {
    scans =
        record {
          id = fresh;
          hall_pass_id = result.id;
          token = upper token;
          scanner_email = scanner;
          result = result.status;
          scanned_at = now;
        }
        ∷ db.scans;
  }
