-- ===== src/HallPasses/Listing/Insertion.antt =====
-- An order by `created_at desc` that can be computed: rows of one instant keep their places.
use mathlib.Core.List.{Perm}
use mathlib.Core.List.Perm
use save_the_date.Base.{ℕ, ◌≤◌, List, [], ◌∷◌, Bool-cases, inl, inr, arith, All, leb, if◌then◌else◌}
use save_the_date.HallPasses.Model.{HallPass}
use save_the_date.HallPasses.Listing.Order.{IsNewestFirst, Orders}

insert_desc : HallPass → List HallPass → List HallPass
insert_desc p [] = p ∷ []
insert_desc p (q ∷ qs) =
    if leb q.created_at p.created_at then p ∷ (q ∷ qs) else q ∷ insert_desc p qs

unfoldable pub order_desc : List HallPass → List HallPass
unfolding insert_desc
order_desc [] = []
order_desc (p ∷ ps) = insert_desc p (order_desc ps)

Perm-insert_desc : (p : HallPass) (ps : List HallPass) → Perm (insert_desc p ps) (p ∷ ps)
unfolding insert_desc
Perm-insert_desc p [] = Perm.rfl
Perm-insert_desc p (q ∷ qs) = elim (Bool-cases (leb q.created_at p.created_at)) [
  | inl newer ↦ rw newer Perm.rfl
  | inr older ↦ rw older (Perm.trans (Perm.cons q (Perm-insert_desc p qs)) (Perm.swap p q qs))
]

Perm-order_desc : (ps : List HallPass) → Perm (order_desc ps) ps
unfolding order_desc
Perm-order_desc [] = Perm.nil
Perm-order_desc (p ∷ ps) =
    Perm.trans (Perm-insert_desc p (order_desc ps)) (Perm.cons p (Perm-order_desc ps))

All-insert_desc :
    (n : ℕ) (p : HallPass) (ps : List HallPass)
    → p.created_at ≤ n
    → All (λ q. q.created_at ≤ n) ps
    → All (λ q. q.created_at ≤ n) (insert_desc p ps)
unfolding insert_desc
All-insert_desc n p [] h k = (h, tt)
All-insert_desc n p (q ∷ qs) h k = ground (arith, All-insert_desc n p qs h k.1)

All-le_trans :
    (n m : ℕ) (ps : List HallPass)
    → n ≤ m
    → All (λ q. q.created_at ≤ n) ps
    → All (λ q. q.created_at ≤ m) ps
All-le_trans n m [] h k = tt
All-le_trans n m (q ∷ qs) h k = (omega arith, All-le_trans n m qs h k.1)

insert_desc-IsNewestFirst :
    (p : HallPass) (ps : List HallPass) → IsNewestFirst ps → IsNewestFirst (insert_desc p ps)
unfolding insert_desc
insert_desc-IsNewestFirst p [] h = (tt, tt)
insert_desc-IsNewestFirst p (q ∷ qs) h = ground (
  arith,
  All-le_trans q.created_at p.created_at qs,
  All-insert_desc q.created_at p qs,
  insert_desc-IsNewestFirst p qs h.1,
)

order_desc-IsNewestFirst : (ps : List HallPass) → IsNewestFirst (order_desc ps)
unfolding order_desc
order_desc-IsNewestFirst [] = tt
order_desc-IsNewestFirst (p ∷ ps) =
    insert_desc-IsNewestFirst p (order_desc ps) (order_desc-IsNewestFirst ps)

pub order_desc-Orders : Orders order_desc
order_desc-Orders rows = (order_desc-IsNewestFirst rows, Perm-order_desc rows)
