-- ===== src/HallPasses/InviteStats.antt =====
-- How many passes each inviter has: `getInviteFromStats` of apps/web/src/lib/hallPasses.ts.
-- `before` is the order of texts in the database, which its collation decides.
pub mod Laws
use save_the_date.Base.{
  ℕ, suc, Bool, ◌&&◌, ◌||◌, none, some, List, [], ◌∷◌, Text, codes, same, or_text, ltb, filter,
  ◌==◌, if◌then◌else◌,
}
use mathlib.Core.List.{reverse}
use save_the_date.HallPasses.Model.{HallPass, Db, is_active}

pub record InviteFromStat : Type 0 where
  pub invite_from : Text
  pub count : ℕ

-- SQL's `trim`, which removes spaces only
trim_spaces_start : Text → Text
trim_spaces_start [] = []
trim_spaces_start (c ∷ s) = if c == 32 then trim_spaces_start s else c ∷ s

trim_spaces : Text → Text
trim_spaces s = reverse (trim_spaces_start (reverse (trim_spaces_start s)))

-- `coalesce(nullif(trim(invite_from), ''), 'Unassigned')`
pub inviter : HallPass → Text
inviter p = elim p.invite_from [
  | none ↦ codes "Unassigned"
  | some s ↦ or_text (trim_spaces s) (codes "Unassigned")
]

-- One row for each group.
pub tally : Text → List InviteFromStat → List InviteFromStat
tally name [] = record { invite_from = name; count = 1 } ∷ []
tally name (g ∷ gs) =
    if same g.invite_from name
    then record { invite_from = g.invite_from; count = suc g.count } ∷ gs
    else g ∷ tally name gs

pub group_rows : List HallPass → List InviteFromStat
group_rows [] = []
group_rows (p ∷ ps) = tally (inviter p) (group_rows ps)

module _ (before : Text → Text → Bool) where
  -- `order by count desc, invite_from asc`
  comes_first : InviteFromStat → InviteFromStat → Bool
  comes_first g h =
      ltb h.count g.count || (g.count == h.count && before g.invite_from h.invite_from)

  insert_group : InviteFromStat → List InviteFromStat → List InviteFromStat
  insert_group g [] = g ∷ []
  insert_group g (h ∷ hs) = if comes_first g h then g ∷ (h ∷ hs) else h ∷ insert_group g hs

  order_groups : List InviteFromStat → List InviteFromStat
  order_groups [] = []
  order_groups (g ∷ gs) = insert_group g (order_groups gs)

  -- `getInviteFromStats()`
  pub get_invite_from_stats : Db → List InviteFromStat
  get_invite_from_stats db = order_groups (group_rows (filter is_active db.passes))
