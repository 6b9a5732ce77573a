-- ===== src/HallPasses/Create/Limit.antt =====
-- A batch is issued whole or not at all, within the configured limit.
use mathlib.Core.List.{reverse_aux}
use save_the_date.Base.{
  ℕ, sym, true, ◌⊎◌, ◌+◌, ◌≤◌, ◌<◌, ◌≡◌, refl, false, Option, none, some, List, [], ◌∷◌, map, arith,
  Text, trim, length, length-map, All, ap, ◌∙◌, count, Outcome, returned, thrown, Bool-cases, inl,
  inr,
}
use save_the_date.HallPasses.Model.{HallPass, Db, IsWellFormed, is_active}
use save_the_date.Auth.Session.{AuthSession}
use save_the_date.HallPasses.Create.{
  Draw, CreateError, Transaction, finish, configured_limit, exceeds, create_normalized,
  create_hall_passes,
}
use save_the_date.HallPasses.Create.Batch.{IsConsistent, Named, Batch, create_each-Batch}

-- The number of active passes stays within a limit; without one, any number does.
abbrev pub Within : Option ℕ → ℕ → Type 0
Within none n = Unit
Within (some limit) n = n ≤ limit

-- More than a limit allows; without one, nothing is.
abbrev pub Exceeded : Option ℕ → ℕ → Type 0
Exceeded none n = ⊥
Exceeded (some limit) n = limit < n

over-Exceeded :
    (limit : Option ℕ) (issued wanted total : ℕ)
    → exceeds limit issued wanted ≡ true
    → total ≡ wanted + issued
    → Exceeded limit total
unfolding exceeds
over-Exceeded none issued wanted total over e = cc
over-Exceeded (some limit) issued wanted total over e = ground arith

fits-Within :
    (limit : Option ℕ) (issued wanted total : ℕ)
    → exceeds limit issued wanted ≡ false
    → total ≡ wanted + issued
    → Within limit total
unfolding exceeds
fits-Within none issued wanted total fits e = tt
fits-Within (some limit) issued wanted total fits e = ground arith

ahead_of :
    (ps : List HallPass) (n n' : ℕ)
    → n ≤ n'
    → All (λ p. p.ticket_number < n) ps
    → All (λ p. p.ticket_number < n') ps
ahead_of [] n n' le h = tt
ahead_of (p ∷ ps) n n' le h = (omega arith, ahead_of ps n n' le h.1)

module _ (upper : Text → Text) (now : ℕ) (invite_from : Option Text)
    (created_by : AuthSession) where
  count-Named :
      (guests : List Text) (ps table : List HallPass)
      → Named upper now invite_from created_by guests ps
      → count is_active (reverse_aux ps table) ≡ length guests + count is_active table
  count-Named [] [] table n = omega arith
  count-Named [] (p ∷ ps) table n = absurd n
  count-Named (g ∷ gs) [] table n = absurd n
  count-Named (g ∷ gs) (p ∷ ps) table n =
      ground (arith, n.0.active, count-Named gs ps (p ∷ table) n.1)

  -- What `createHallPasses` has done to the database, by how it ended.
  abbrev pub Created : List Text → Db → Outcome CreateError (List HallPass) × Db → Type 0
  Created guests db (thrown e, db') =
      (db'.passes ≡ db.passes) × (db'.settings ≡ db.settings) × (db'.scans ≡ db.scans)
  Created guests db (returned [], db') =
      (db' ≡ db)
      × ((guests ≡ []) ⊎ Exceeded (configured_limit db) (length guests + count is_active db.passes))
  Created guests db (returned (p ∷ ps), db') =
      Named upper now invite_from created_by (map trim guests) (p ∷ ps)
      × (db'.passes ≡ reverse_aux (p ∷ ps) db.passes)
      × (count is_active db'.passes ≡ length guests + count is_active db.passes)
      × Within (configured_limit db) (count is_active db'.passes)

  module _ (draws : ℕ → Draw) where
    start :
        (db : Db)
        → IsWellFormed db
        → IsConsistent (record { table = db.passes; next_ticket = db.next_ticket; drawn = 0 })
    start db wf = record {
      ids = wf.ids;
      tokens = wf.tokens;
      numbers = wf.numbers;
      ahead = wf.ahead;
    }

    finish-Created :
        (g : Text) (gs : List Text) (db : Db)
        (r : Outcome CreateError (List HallPass) × Transaction)
        → exceeds (configured_limit db) (count is_active db.passes) (length (map trim (g ∷ gs)))
          ≡ false
        → Batch upper now invite_from created_by (map trim (g ∷ gs)) db.passes db.next_ticket r
        → Created (g ∷ gs) db (finish db r)
    unfolding finish
    finish-Created g gs db (thrown e, tx) fits b = (refl, refl, refl)
    finish-Created g gs db (returned [], tx) fits b = absurd b.3
    finish-Created g gs db (returned (p ∷ ps), tx) fits b =
        let total : count is_active tx.table ≡ length (g ∷ gs) + count is_active db.passes =
          rw b.1 (
            count-Named (map trim (g ∷ gs)) (p ∷ ps) db.passes b.3
            ∙ ap (λ n. n + count is_active db.passes) (length-map trim (g ∷ gs))) in
        (
          b.3,
          b.1,
          total,
          fits-Within (configured_limit db) (count is_active db.passes) (length (g ∷ gs)) _
              (rw (← length-map trim (g ∷ gs)) fits) total,
        )

    finish-IsWellFormed :
        (guests : List Text) (db : Db) (r : Outcome CreateError (List HallPass) × Transaction)
        → IsWellFormed db
        → Batch upper now invite_from created_by guests db.passes db.next_ticket r
        → IsWellFormed (finish db r).1
    unfolding finish
    finish-IsWellFormed guests db (thrown e, tx) wf b = record {
      ids = wf.ids;
      tokens = wf.tokens;
      numbers = wf.numbers;
      ahead = ahead_of db.passes db.next_ticket tx.next_ticket b wf.ahead;
    }
    finish-IsWellFormed guests db (returned ps, tx) wf b = record {
      ids = b.0.ids;
      tokens = b.0.tokens;
      numbers = b.0.numbers;
      ahead = b.0.ahead;
    }

    -- On well-formed tables a call of `createHallPasses` issues a new, unused pass for every guest
    -- of the batch, named by the trimmed name, and then the active passes are within the configured
    -- limit; or it returns no pass and leaves the database as it was, because there is no guest or
    -- the batch would exceed the limit; or it throws, and no row of any table has changed.
    pub create_hall_passes-Created :
        (guests : List Text) (db : Db)
        → IsWellFormed db
        → Created guests db (create_hall_passes upper now invite_from created_by draws guests db)
    unfolding create_hall_passes create_normalized
    create_hall_passes-Created [] db wf = (refl, inl refl)
    create_hall_passes-Created (g ∷ gs) db wf =
        elim (Bool-cases (
          exceeds (configured_limit db) (count is_active db.passes) (length (map trim (g ∷ gs))))) [
            | inl over ↦ rw over (
              refl,
              inr (
                  over-Exceeded (configured_limit db) (count is_active db.passes)
                    (length (map trim (g ∷ gs))) (length (g ∷ gs) + count is_active db.passes) over
                    (ap (λ n. n + count is_active db.passes) (sym (length-map trim (g ∷ gs))))),
            )
            | inr fits ↦ rw fits (
                finish-Created g gs db _ fits (
                  create_each-Batch upper now invite_from created_by draws (map trim (g ∷ gs)) _
                    (start db wf)))
          ]

    -- Ids, tokens and ticket numbers that do not repeat, with the sequence ahead of the last, stay
    -- so, however the call ends.
    pub create_hall_passes-IsWellFormed :
        (guests : List Text) (db : Db)
        → IsWellFormed db
        → IsWellFormed (create_hall_passes upper now invite_from created_by draws guests db).1
    unfolding create_hall_passes create_normalized
    create_hall_passes-IsWellFormed [] db wf = wf
    create_hall_passes-IsWellFormed (g ∷ gs) db wf =
        elim (Bool-cases (
          exceeds (configured_limit db) (count is_active db.passes) (length (map trim (g ∷ gs))))) [
            | inl over ↦ rw over wf
            | inr fits ↦ rw fits (
                finish-IsWellFormed (map trim (g ∷ gs)) db _ wf (
                  create_each-Batch upper now invite_from created_by draws (map trim (g ∷ gs)) _
                    (start db wf)))
          ]
