-- ===== src/HallPasses/Redeem/Answer.antt =====
-- What the door is told, and what changes: the queries of `redeem_hall_pass` against one lookup of
-- the token.
use mathlib.Core.Option
use save_the_date.Base.{
  ◌||◌, ℕ, ◌≡◌, refl, ◌≢◌, ◌&&◌, Option, none, some, List, [], ◌∷◌, map, arith, Text, same,
  same_iff, is_none, is_some, head?, filter, find?, update_where, take, All, Distinct,
  if◌then◌else◌,
}
use save_the_date.HallPasses.Model.{HallPass, valid, used, invalid, RedeemResult, Db, IsWellFormed}
use save_the_date.HallPasses.Redeem.{
  is_redeemable, mark_used, refused_status, as_refused, refused_rows, redeemed_rows, redeem_rows,
  first_row, redeem_hall_pass,
}

-- The row of a token.
abbrev pub pass_of : Text → List HallPass → Option HallPass
pass_of token = find? (λ p. same p.token token)

-- The answer, by that row alone.
abbrev pub verdict : ℕ → Option HallPass → RedeemResult
verdict now none = record {
  id = none;
  ticket_number = none;
  guest_name = none;
  status = invalid;
  used_at = none;
}
verdict now (some p) = record {
  id = some p.id;
  ticket_number = some p.ticket_number;
  guest_name = p.guest_name;
  status = if is_some p.invalidated_at then invalid else if is_some p.used_at then used else valid;
  used_at = if is_some p.invalidated_at || is_some p.used_at then p.used_at else some now;
}

-- The row after the scan: used from now on if it was neither used nor invalidated.
abbrev pub scanned : ℕ → Option Text → HallPass → HallPass
scanned now scanner p =
    if is_some p.invalidated_at || is_some p.used_at
    then p
    else record p { used_at = some now; used_by = scanner }

rows_of {ℓ} : {A : Type ℓ} → Option A → List A
rows_of none = []
rows_of (some a) = a ∷ []

no_row :
    (token : Text) (ps : List HallPass)
    → All (λ q. token ≢ q.token) ps
    → filter (λ p. same p.token token) ps ≡ []
no_row token [] h = refl
no_row token (q ∷ qs) h = ground (arith, same_iff q.token token, no_row token qs h.1)

filter-token :
    (token : Text) (ps : List HallPass)
    → Distinct HallPass.token ps
    → filter (λ p. same p.token token) ps ≡ rows_of (pass_of token ps)
unfolding rows_of
filter-token token [] d = refl
filter-token token (q ∷ qs) d = ground (
  arith,
  same_iff q.token token,
  no_row q.token qs d.0,
  no_row token qs,
  filter-token token qs d.1,
)

filter-is_redeemable :
    (token : Text) (ps : List HallPass)
    → filter (is_redeemable token) ps
      ≡ filter
          (λ p. is_none p.used_at && is_none p.invalidated_at)
          (filter (λ p. same p.token token) ps)
unfolding is_redeemable
filter-is_redeemable token [] = refl
filter-is_redeemable token (q ∷ qs) = ground (arith, filter-is_redeemable token qs)

answer_rows :
    (now : ℕ) (scanner : Option Text) (o : Option HallPass)
    → first_row (
        head? (
          take 1 (
            redeemed_rows
              (map
                (mark_used now scanner)
                (filter (λ p. is_none p.used_at && is_none p.invalidated_at) (rows_of o)))
              (refused_rows (rows_of o)))))
      ≡ verdict now o
unfolding first_row redeemed_rows refused_rows rows_of as_refused refused_status
answer_rows now scanner none = refl
answer_rows now scanner (some p) = ground arith

module _ (upper : Text → Text) (token : Text) (scanner : Option Text) (now : ℕ) (db : Db) where
  -- On well-formed tables the answer of a scan is decided by the row of its token in upper case: an
  -- unknown token and an invalidated pass are invalid, a used pass is used, and any other pass is
  -- valid, as of now.
  pub redeem-verdict :
      IsWellFormed db
      → (redeem_hall_pass upper token scanner now db).0
        ≡ verdict now (pass_of (upper token) db.passes)
  unfolding redeem_hall_pass redeem_rows
  redeem-verdict wf =
      rw
        (
          filter-is_redeemable (upper token) db.passes,
          filter-token (upper token) db.passes wf.tokens,
        )
        (answer_rows now scanner (pass_of (upper token) db.passes))

pass_of-update :
    (t token : Text) (scanner : Option Text) (now : ℕ) (ps : List HallPass)
    → pass_of t (update_where (is_redeemable token) (mark_used now scanner) ps)
      ≡ (if same t token then Option.map (scanned now scanner) (pass_of t ps) else pass_of t ps)
unfolding is_redeemable
pass_of-update t token scanner now [] = ground arith
pass_of-update t token scanner now (q ∷ qs) = ground (
  arith,
  same_iff q.token token,
  same_iff q.token t,
  same_iff t token,
  pass_of-update t token scanner now qs,
)

module _ (upper : Text → Text) (token : Text) (scanner : Option Text) (now : ℕ) (db : Db)
    (t : Text) where
  -- A scan changes no pass but that of its token, and that one only as `scanned` says.
  pub pass_of-redeem : pass_of t (redeem_hall_pass upper token scanner now db).1.passes ≡ (
      if same t (upper token)
      then Option.map (scanned now scanner) (pass_of t db.passes)
      else pass_of t db.passes)
  unfolding redeem_hall_pass redeem_rows
  pass_of-redeem = pass_of-update t (upper token) scanner now db.passes
