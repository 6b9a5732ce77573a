-- ===== src/HallPasses/Redeem/Once.antt =====
-- A pass is redeemed once: what a redemption needs of the table, and what it leaves behind.
use save_the_date.Base.{
  subst, ℕ, ◌≡◌, refl, Bool, true, false, ◌&&◌, Option, none, some, List, [], ◌∷◌, map, inl, inr,
  arith, Text, same, is_some, head?, filter, any, take, All, Distinct, ◌==◌, Bool-cases,
  any-update_where, any-update_where_hit, All-filter-head, ◌≢◌,
}
use save_the_date.HallPasses.Model.{HallPass, valid, Db, IsWellFormed}
use save_the_date.HallPasses.Update.{update-IsWellFormed}
use save_the_date.HallPasses.Redeem.{
  is_redeemable, mark_used, refused_status, as_refused, refused_rows, redeemed_rows, redeem_rows,
  first_row, redeem_hall_pass,
}

-- The row with this id was used.
abbrev pub is_used : ℕ → HallPass → Bool
is_used i p = p.id == i && is_some p.used_at

refused_status-ne-valid : (p : HallPass) → refused_status p ≢ valid
unfolding refused_status
refused_status-ne-valid p = ground arith

refused_rows-ne-valid :
    (ps : List HallPass) → (first_row (head? (take 1 (refused_rows ps)))).status ≢ valid
unfolding refused_rows first_row as_refused
refused_rows-ne-valid [] = ground arith
refused_rows-ne-valid (p ∷ ps) = refused_status-ne-valid p

is_redeemable-unused :
    (token : Text) (p : HallPass) → is_redeemable token p ≡ true → p.used_at ≡ none
unfolding is_redeemable
is_redeemable-unused token p h = ground arith

any-is_used_of_ne :
    (i : ℕ) (ps : List HallPass) → All (λ q. i ≢ q.id) ps → any (is_used i) ps ≡ false
any-is_used_of_ne i [] h = refl
any-is_used_of_ne i (q ∷ qs) h = ground (arith, any-is_used_of_ne i qs h.1)

-- The pass that a redemption finds was not used before, since no other row has its id.
unused_before :
    (token : Text) {p : HallPass} {ps : List HallPass} (rows : List HallPass)
    → Distinct HallPass.id rows
    → filter (is_redeemable token) rows ≡ p ∷ ps
    → any (is_used p.id) rows ≡ false
unused_before token [] d e = refl
unused_before token {p} {ps} (q ∷ qs) d e = elim (Bool-cases (is_redeemable token q)) [
  | inl hit ↦
      let kept : q ∷ filter (is_redeemable token) qs ≡ p ∷ ps = rw hit at e in
      let same_row : q ≡ p = cc in
      subst (λ r. any (is_used r.id) (q ∷ qs) ≡ false) same_row
        (ground (arith, is_redeemable-unused token q hit, any-is_used_of_ne q.id qs d.0))
  | inr miss ↦
      let kept : filter (is_redeemable token) qs ≡ p ∷ ps = rw miss at e in
      let other : q.id ≢ p.id =
        All-filter-head (λ r. q.id ≢ r.id) (is_redeemable token) qs d.0 kept in
      ground (arith, other, unused_before token qs d.1 kept)
]

module _ (upper : Text → Text) (token : Text) (scanner : Option Text) (now : ℕ) (db : Db) where
  -- The rows that the update hits.
  abbrev hits : List HallPass
  hits = filter (is_redeemable (upper token)) db.passes

  pub redeem_valid_row :
      (redeem_hall_pass upper token scanner now db).0.status ≡ valid
      → (p : HallPass) × (ps : List HallPass) × (hits ≡ p ∷ ps)
        × ((redeem_hall_pass upper token scanner now db).0.id ≡ some p.id)
  unfolding redeem_hall_pass redeem_rows redeemed_rows first_row
  redeem_valid_row = go hits
    where
      go :
          (rows : List HallPass)
          → (first_row (
              head? (
                take 1 (
                  redeemed_rows
                    (map (mark_used now scanner) rows)
                    (refused_rows (filter (λ p. same p.token (upper token)) db.passes)))))).status
            ≡ valid
          → (p : HallPass) × (ps : List HallPass) × (rows ≡ p ∷ ps)
            × ((first_row (
                  head? (
                    take 1 (
                      redeemed_rows
                        (map (mark_used now scanner) rows)
                        (refused_rows (filter (λ p. same p.token (upper token)) db.passes)))))).id
                ≡ some p.id)
      go [] e = absurd (refused_rows-ne-valid _ e)
      go (p ∷ ps) e = (p, ps, refl, refl)

  pub redeem-IsWellFormed :
      IsWellFormed db → IsWellFormed (redeem_hall_pass upper token scanner now db).1
  unfolding redeem_hall_pass redeem_rows
  redeem-IsWellFormed =
      update-IsWellFormed (is_redeemable (upper token)) (mark_used now scanner) db
        (λ p. (refl, refl, refl))

  pub redeem_used_after :
      (i : ℕ)
      → (redeem_hall_pass upper token scanner now db).0.status ≡ valid
      → (redeem_hall_pass upper token scanner now db).0.id ≡ some i
      → any (is_used i) (redeem_hall_pass upper token scanner now db).1.passes ≡ true
  unfolding redeem_hall_pass redeem_rows
  redeem_used_after i v e =
      let (p, ps, hit, same_id) = redeem_valid_row v in
      let same_number : p.id ≡ i = cc (same_id, e) in
      any-update_where_hit (is_used i) (is_redeemable (upper token)) (mark_used now scanner) p
        db.passes ps hit (ground (arith, same_number))

  pub redeem_unused_before :
      (i : ℕ)
      → IsWellFormed db
      → (redeem_hall_pass upper token scanner now db).0.status ≡ valid
      → (redeem_hall_pass upper token scanner now db).0.id ≡ some i
      → any (is_used i) db.passes ≡ false
  redeem_unused_before i wf v e =
      let (p, ps, hit, same_id) = redeem_valid_row v in
      let same_number : p.id ≡ i = cc (same_id, e) in
      subst (λ j. any (is_used j) db.passes ≡ false) same_number
        (unused_before (upper token) db.passes wf.ids hit)

  -- A used pass stays used, whatever is redeemed.
  pub redeem_keeps_used :
      (i : ℕ)
      → any (is_used i) db.passes ≡ true
      → any (is_used i) (redeem_hall_pass upper token scanner now db).1.passes ≡ true
  unfolding redeem_hall_pass redeem_rows
  redeem_keeps_used i h =
      any-update_where (is_used i) (is_redeemable (upper token)) (mark_used now scanner) db.passes
        (λ p used_p. ground arith) h

  pub redeem_keeps_scans : (redeem_hall_pass upper token scanner now db).1.scans ≡ db.scans
  unfolding redeem_hall_pass
  redeem_keeps_scans = refl
