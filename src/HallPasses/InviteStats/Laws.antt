-- ===== src/HallPasses/InviteStats/Laws.antt =====
-- The counts by inviter are those of the passes that are active.
use save_the_date.Base.{
  ℕ, ◌+◌, ◌≡◌, ◌≢◌, refl, sym, ◌∙◌, All, Distinct, same_refl, Bool, List, [], ◌∷◌, arith, Text,
  same, same→eq, count, filter, if◌then◌else◌, Bool-cases, inl, inr,
}
use save_the_date.HallPasses.Model.{HallPass, Db, is_active}
use save_the_date.HallPasses.InviteStats.{
  InviteFromStat, inviter, tally, group_rows, comes_first, insert_group, order_groups,
  get_invite_from_stats,
}

-- What the rows of one name add up to.
abbrev pub tallied : Text → List InviteFromStat → ℕ
tallied name [] = 0
tallied name (g ∷ gs) = (if same g.invite_from name then g.count else 0) + tallied name gs

tallied-tally :
    (name added : Text) (gs : List InviteFromStat)
    → tallied name (tally added gs) ≡ (if same added name then 1 else 0) + tallied name gs
unfolding tally
tallied-tally name added [] = refl
tallied-tally name added (g ∷ gs) = elim (Bool-cases (same g.invite_from added)) [
  | inl h ↦
      rw h
        (let e : g.invite_from ≡ added = same→eq g.invite_from added h in rw (← e) (ground arith))
  | inr h ↦ rw h (omega (arith, tallied-tally name added gs))
]

tallied-group_rows :
    (name : Text) (ps : List HallPass)
    → tallied name (group_rows ps) ≡ count (λ p. same (inviter p) name) ps
unfolding group_rows
tallied-group_rows name [] = refl
tallied-group_rows name (p ∷ ps) =
    ground (arith, tallied-tally name (inviter p) (group_rows ps), tallied-group_rows name ps)

-- A name that no row has is on no row of the tally but its own.
All-ne-tally :
    (name added : Text) (gs : List InviteFromStat)
    → name ≢ added
    → All (λ g. name ≢ g.invite_from) gs
    → All (λ g. name ≢ g.invite_from) (tally added gs)
unfolding tally
All-ne-tally name added [] ne h = (ne, tt)
All-ne-tally name added (g ∷ gs) ne h = elim (Bool-cases (same g.invite_from added)) [
  | inl e ↦ rw e h
  | inr e ↦ rw e (h.0, All-ne-tally name added gs ne h.1)
]

Distinct-tally :
    (added : Text) (gs : List InviteFromStat)
    → Distinct InviteFromStat.invite_from gs
    → Distinct InviteFromStat.invite_from (tally added gs)
unfolding tally
Distinct-tally added [] d = (tt, tt)
Distinct-tally added (g ∷ gs) d = elim (Bool-cases (same g.invite_from added)) [
  | inl e ↦ rw e d
  | inr e ↦
      let differs : g.invite_from ≢ added = λ q. ground (arith, e, q, same_refl added) in
      rw e (All-ne-tally g.invite_from added gs differs d.0, Distinct-tally added gs d.1)
]

Distinct-group_rows : (ps : List HallPass) → Distinct InviteFromStat.invite_from (group_rows ps)
unfolding group_rows
Distinct-group_rows [] = tt
Distinct-group_rows (p ∷ ps) = Distinct-tally (inviter p) (group_rows ps) (Distinct-group_rows ps)

module _ (before : Text → Text → Bool) where
  All-insert_group {κ} :
      (P : InviteFromStat → Type κ) (g : InviteFromStat) (gs : List InviteFromStat)
      → P g
      → All P gs
      → All P (insert_group before g gs)
  unfolding insert_group
  All-insert_group P g [] h k = (h, tt)
  All-insert_group P g (x ∷ gs) h k = elim (Bool-cases (comes_first before g x)) [
    | inl e ↦ rw e (h, k)
    | inr e ↦ rw e (k.0, All-insert_group P g gs h k.1)
  ]

  All-order_groups {κ} :
      (P : InviteFromStat → Type κ) (gs : List InviteFromStat)
      → All P gs
      → All P (order_groups before gs)
  unfolding order_groups
  All-order_groups P [] h = tt
  All-order_groups P (g ∷ gs) h =
      All-insert_group P g (order_groups before gs) h.0 (All-order_groups P gs h.1)

  Distinct-insert_group :
      (g : InviteFromStat) (gs : List InviteFromStat)
      → All (λ x. g.invite_from ≢ x.invite_from) gs
      → Distinct InviteFromStat.invite_from gs
      → Distinct InviteFromStat.invite_from (insert_group before g gs)
  unfolding insert_group
  Distinct-insert_group g [] h d = (tt, tt)
  Distinct-insert_group g (x ∷ gs) h d = elim (Bool-cases (comes_first before g x)) [
    | inl e ↦ rw e (h, d)
    | inr e ↦ rw e (
      All-insert_group (λ y. x.invite_from ≢ y.invite_from) g gs (λ q. h.0 (sym q)) d.0,
      Distinct-insert_group g gs h.1 d.1,
    )
  ]

  Distinct-order_groups :
      (gs : List InviteFromStat)
      → Distinct InviteFromStat.invite_from gs
      → Distinct InviteFromStat.invite_from (order_groups before gs)
  unfolding order_groups
  Distinct-order_groups [] d = tt
  Distinct-order_groups (g ∷ gs) d =
      Distinct-insert_group g (order_groups before gs)
        (All-order_groups (λ x. g.invite_from ≢ x.invite_from) gs d.0)
        (Distinct-order_groups gs d.1)

module _ (before : Text → Text → Bool) (name : Text) where
  tallied-insert_group :
      (g : InviteFromStat) (gs : List InviteFromStat)
      → tallied name (insert_group before g gs) ≡ tallied name (g ∷ gs)
  unfolding insert_group
  tallied-insert_group g [] = refl
  tallied-insert_group g (h ∷ hs) = elim (Bool-cases (comes_first before g h)) [
    | inl e ↦ rw e refl
    | inr e ↦ rw e (omega (arith, tallied-insert_group g hs))
  ]

  tallied-order_groups :
      (gs : List InviteFromStat) → tallied name (order_groups before gs) ≡ tallied name gs
  unfolding order_groups
  tallied-order_groups [] = refl
  tallied-order_groups (g ∷ gs) =
      omega (arith, tallied-insert_group g (order_groups before gs), tallied-order_groups gs)

  tallied_lem :
      (db : Db)
      → tallied name (get_invite_from_stats before db)
        ≡ count (λ p. same (inviter p) name) (filter is_active db.passes)
  unfolding get_invite_from_stats
  tallied_lem db =
      tallied-order_groups (group_rows (filter is_active db.passes))
      ∙ tallied-group_rows name (filter is_active db.passes)

-- The names of the rows of `getInviteFromStats` do not repeat, and for every name the count on its
-- row, or zero where it has none, is the number of active passes whose inviter, without spaces
-- around it and `Unassigned` where there is none, is that name.
pub get_invite_from_stats-tallied :
    (before : Text → Text → Bool) (name : Text) (db : Db)
    → Distinct InviteFromStat.invite_from (get_invite_from_stats before db)
      × (tallied name (get_invite_from_stats before db)
          ≡ count (λ p. same (inviter p) name) (filter is_active db.passes))
unfolding get_invite_from_stats
get_invite_from_stats-tallied before name db = (
  Distinct-order_groups before _ (Distinct-group_rows (filter is_active db.passes)),
  tallied_lem before name db,
)
