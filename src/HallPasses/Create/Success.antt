-- ===== src/HallPasses/Create/Success.antt =====
-- A batch within the limit is issued, where the random draws do not collide.
use save_the_date.Base.{
  ℕ, suc, ◌+◌, ◌<◌, ◌≤◌, ◌≡◌, refl, ap, ◌∙◌, false, Option, none, some, List, [], ◌∷◌, map, arith,
  Text, same, trim, length, length-map, count, any, ◌==◌, Outcome, returned, thrown, resume, pure,
}
use save_the_date.HallPasses.Model.{HallPass, Db, is_active}
use save_the_date.Auth.Session.{AuthSession}
use save_the_date.HallPasses.Create.{
  Draw, CreateError, Transaction, add_row, create_readable_token, new_row, insert_row, attempt,
  attempts, created_or_throw, create_each, finish, configured_limit, exceeds, create_normalized,
  create_hall_passes,
}
use save_the_date.HallPasses.Create.Limit.{Within}

module _ (upper : Text → Text) (draws : ℕ → Draw) where
  abbrev pub token_of : ℕ → Text
  token_of n = upper (create_readable_token (draws n).bytes)

  -- The first draws give tokens and ids that neither the table nor an earlier draw has.
  pub record IsFresh (table : List HallPass) (bound : ℕ) : Type 0 where
    pub new_tokens : (n : ℕ) → n < bound → any (λ p. same p.token (token_of n)) table ≡ false
    pub new_ids : (n : ℕ) → n < bound → any (λ p. p.id == (draws n).id) table ≡ false
    pub other_tokens : (m n : ℕ) → m < n → n < bound → same (token_of m) (token_of n) ≡ false
    pub other_ids : (m n : ℕ) → m < n → n < bound → ((draws m).id == (draws n).id) ≡ false

  -- The draws from `drawn` on do not collide with the table.
  record IsClear (table : List HallPass) (drawn bound : ℕ) : Type 0 where
    tokens : (n : ℕ) → drawn ≤ n → n < bound → any (λ p. same p.token (token_of n)) table ≡ false
    ids : (n : ℕ) → drawn ≤ n → n < bound → any (λ p. p.id == (draws n).id) table ≡ false

  module _ (now : ℕ) (invite_from : Option Text) (created_by : AuthSession) where
    abbrev row_of : Text → Transaction → HallPass
    row_of g tx =
        new_row upper now invite_from created_by g (token_of tx.drawn) (draws tx.drawn).id
          tx.next_ticket

    first_attempt :
        (left : ℕ) (g : Text) (tx : Transaction) (bound : ℕ)
        → IsClear tx.table tx.drawn bound
        → tx.drawn < bound
        → attempts upper now invite_from created_by draws (suc left) g tx
          ≡ (returned (some (row_of g tx)), add_row (row_of g tx) tx)
    unfolding attempts attempt insert_row
    first_attempt left g tx bound c h =
        rw (c.tokens tx.drawn (omega arith) h, c.ids tx.drawn (omega arith) h) refl

    add_row-IsClear :
        (g : Text) (tx : Transaction) (table : List HallPass) (bound : ℕ)
        → IsFresh table bound
        → IsClear tx.table tx.drawn bound
        → IsClear (add_row (row_of g tx) tx).table (tx.drawn + 1) bound
    unfolding new_row
    add_row-IsClear g tx table bound f c = record {
      tokens =
          λ n le lt. rw (f.other_tokens tx.drawn n (omega arith) lt) (c.tokens n (omega arith) lt);
      ids = λ n le lt. rw (f.other_ids tx.drawn n (omega arith) lt) (c.ids n (omega arith) lt);
    }

    push-returned :
        (p : HallPass) (ps : List HallPass) (r : Outcome CreateError (List HallPass) × Transaction)
        → r.0 ≡ returned ps
        → (resume
            (λ (passes : List HallPass) (tx : Transaction). pure {E = CreateError} (p ∷ passes) tx)
            r.0
            r.1).0
          ≡ returned (p ∷ ps)
    push-returned p ps (thrown e, tx) h = cc
    push-returned p ps (returned qs, tx) h = cc

    create_each-returned :
        (guests : List Text) (tx : Transaction) (table : List HallPass) (bound : ℕ)
        → IsFresh table bound
        → IsClear tx.table tx.drawn bound
        → tx.drawn + length guests ≤ bound
        → (ps : List HallPass) × (length ps ≡ length guests)
          × ((create_each upper now invite_from created_by draws guests tx).0 ≡ returned ps)
    unfolding create_each created_or_throw
    create_each-returned [] tx table bound f c le = ([], refl, refl)
    create_each-returned (g ∷ gs) tx table bound f c le =
        let tx' = add_row (row_of g tx) tx in
        let (ps, len, e) =
          create_each-returned gs tx' table bound f (add_row-IsClear g tx table bound f c)
            (omega arith) in
        (
          row_of g tx ∷ ps,
          ap suc len,
          rw (first_attempt 4 g tx bound c (omega arith)) (
              push-returned (row_of g tx) ps
                (create_each upper now invite_from created_by draws gs tx') e),
        )

    finish-returned :
        (db : Db) (ps : List HallPass) (r : Outcome CreateError (List HallPass) × Transaction)
        → r.0 ≡ returned ps
        → (finish db r).0 ≡ returned ps
    unfolding finish
    finish-returned db ps (thrown e, tx) h = cc
    finish-returned db ps (returned qs, tx) h = cc

    Within-exceeds :
        (limit : Option ℕ) (issued wanted : ℕ)
        → Within limit (wanted + issued)
        → exceeds limit issued wanted ≡ false
    unfolding exceeds
    Within-exceeds none issued wanted w = refl
    Within-exceeds (some limit) issued wanted w = ground arith

    -- Where as many draws as guests collide neither with the table nor with one another, and the
    -- batch is within the limit, `createHallPasses` returns a pass for every guest.
    pub create_hall_passes_succeeds :
        (guests : List Text) (db : Db)
        → IsFresh db.passes (length guests)
        → Within (configured_limit db) (length guests + count is_active db.passes)
        → (ps : List HallPass) × (length ps ≡ length guests)
          × ((create_hall_passes upper now invite_from created_by draws guests db).0 ≡ returned ps)
    unfolding create_hall_passes create_normalized
    create_hall_passes_succeeds [] db f w = ([], refl, refl)
    create_hall_passes_succeeds (g ∷ gs) db f w =
        let names = map trim (g ∷ gs) in
        let (ps, len, e) =
          create_each-returned names
            (record { table = db.passes; next_ticket = db.next_ticket; drawn = 0 }) db.passes
            (length (g ∷ gs)) f
            (record { tokens = λ n le. f.new_tokens n; ids = λ n le. f.new_ids n })
            (omega (arith, length-map trim gs)) in
        (
          ps,
          len ∙ ap suc (length-map trim gs),
          rw
              (Within-exceeds (configured_limit db) (count is_active db.passes) (length names)
                (rw (length-map trim gs) w))
              (finish-returned db ps _ e),
        )
