-- ===== src/HallPasses/Listing/Order.antt =====
-- `order by created_at desc`: what PostgreSQL's order of the rows of a query is known for. Rows of
-- one instant it may give in any order, and in another for another query.
use mathlib.Core.Logic.Or
use mathlib.Core.HLevel.{⊥_prop}
use mathlib.Core.List.{Mem, mem-cons_self, mem-cons_of_mem, not-mem-nil, eq-or-mem_of_mem-cons}
use mathlib.Core.List.{Perm}
use mathlib.Core.List.Perm
use mathlib.Core.List
use mathlib.Core.Nat as Core
use native.Mathlib.Bridge.{le_prop}
use native.Mathlib.Nat.{ℕ_set}
use save_the_date.Base.{
  ℕ, zero, suc, ◌≤◌, ◌≡◌, ◌≢◌, refl, ap, ap₂, sym, subst, ◌∙◌, List, [], ◌∷◌, arith, length, All,
  Distinct,
}
use save_the_date.HallPasses.Model.{HallPass}

-- Every row was created no earlier than those below it.
abbrev pub IsNewestFirst : List HallPass → Type 0
IsNewestFirst [] = Unit
IsNewestFirst (p ∷ ps) = All (λ q. q.created_at ≤ p.created_at) ps × IsNewestFirst ps

-- The rows, newest first
abbrev pub Sorts : List HallPass → List HallPass → Type 0
Sorts sorted rows = IsNewestFirst sorted × Perm sorted rows

-- An order that the query may have
abbrev pub Orders : (List HallPass → List HallPass) → Type 0
Orders order = (rows : List HallPass) → Sorts (order rows) rows

-- Rows of the same instant are one row.
abbrev HasNoTies : List HallPass → Type 0
HasNoTies rows = (p q : HallPass) → Mem p rows → Mem q rows → p.created_at ≡ q.created_at → p ≡ q

-- The library's numbers as those of the model
native_of : Core.ℕ → ℕ
native_of Core.zero = zero
native_of (Core.suc n) = suc (native_of n)

native_of-length {ℓ} : {A : Type ℓ} (xs : List A) → length xs ≡ native_of (List.length xs)
unfolding native_of
native_of-length [] = refl
native_of-length (x ∷ xs) = ap suc (native_of-length xs)

pub length-Perm {ℓ} : {A : Type ℓ} {xs ys : List A} → Perm xs ys → length xs ≡ length ys
length-Perm {xs} {ys} d =
    native_of-length xs ∙ ap native_of (Perm.length-eq d) ∙ sym (native_of-length ys)

All-Mem :
    (n : ℕ) (ps : List HallPass) (q : HallPass)
    → All (λ p. p.created_at ≤ n) ps
    → Mem q ps
    → q.created_at ≤ n
All-Mem n [] q h m = absurd (not-mem-nil m)
All-Mem n (p ∷ ps) q h m =
    Or.elim le_prop (eq-or-mem_of_mem-cons m) (λ e. subst (λ r. r.created_at ≤ n) (sym e) h.0)
      (All-Mem n ps q h.1)

-- The first row is as new as any.
newest :
    (p : HallPass) (ps : List HallPass) (q : HallPass)
    → IsNewestFirst (p ∷ ps)
    → Mem q (p ∷ ps)
    → q.created_at ≤ p.created_at
newest p ps q h m = All-Mem p.created_at (p ∷ ps) q (omega arith, h.0) m

HasNoTies-Perm : {xs ys : List HallPass} → Perm xs ys → HasNoTies xs → HasNoTies ys
HasNoTies-Perm d h p q m n = h p q ((Perm.mem_iff d).1 m) ((Perm.mem_iff d).1 n)

IsNewestFirst-unique :
    (xs ys : List HallPass)
    → HasNoTies xs
    → IsNewestFirst xs
    → IsNewestFirst ys
    → Perm xs ys
    → xs ≡ ys
IsNewestFirst-unique [] ys t h k d = Perm.nil-eq d
IsNewestFirst-unique (x ∷ xs) [] t h k d = Perm.eq-nil d
IsNewestFirst-unique (x ∷ xs) (y ∷ ys) t h k d =
    let y_in : Mem y (x ∷ xs) = (Perm.mem_iff d).1 mem-cons_self in
    let x_in : Mem x (y ∷ ys) = (Perm.mem_iff d).0 mem-cons_self in
    let below = newest x xs y h y_in in
    let above = newest y ys x k x_in in
    let heads : x ≡ y = t x y mem-cons_self y_in (omega (arith, below, above)) in
    let tails = Perm.cons_inv (Perm.trans d (Perm.symm (Perm.cons' heads Perm.rfl))) in
    ap₂ (λ p ps. p ∷ ps) heads
      (IsNewestFirst-unique xs ys (λ p q m n. t p q (mem-cons_of_mem x m) (mem-cons_of_mem x n)) h.1
        k.1 tails)

HallPass_set : IsSet HallPass
HallPass_set = hlevel (ℕ_set)

-- A row whose instant no row of the list has is not on it.
apart :
    (n : ℕ) (ps : List HallPass) (q : HallPass)
    → All (λ p. n ≢ p.created_at) ps
    → Mem q ps
    → n ≢ q.created_at
apart n [] q d m same = not-mem-nil m
apart n (p ∷ ps) q d m same =
    Or.elim ⊥_prop (eq-or-mem_of_mem-cons m) (λ e. d.0 (same ∙ ap HallPass.created_at e))
      (λ later. apart n ps q d.1 later same)

Distinct-HasNoTies : (rows : List HallPass) → Distinct HallPass.created_at rows → HasNoTies rows
Distinct-HasNoTies [] d p q m n e = absurd (not-mem-nil m)
Distinct-HasNoTies (r ∷ rows) d p q m n e =
    Or.elim (HallPass_set p q) (eq-or-mem_of_mem-cons m)
      (λ first.
        Or.elim (HallPass_set p q) (eq-or-mem_of_mem-cons n) (λ second. first ∙ sym second)
          (λ later.
            absurd (apart r.created_at rows q d.0 later (ap HallPass.created_at (sym first) ∙ e))))
      (λ later.
        Or.elim (HallPass_set p q) (eq-or-mem_of_mem-cons n)
          (λ first.
            absurd
              (apart r.created_at rows p d.0 later (ap HallPass.created_at (sym first) ∙ sym e)))
          (λ after. Distinct-HasNoTies rows d.1 p q later after e))

-- Rows of different instants have one order.
pub one_order :
    (order other : List HallPass → List HallPass) (rows : List HallPass)
    → Orders order
    → Orders other
    → Distinct HallPass.created_at rows
    → order rows ≡ other rows
one_order order other rows h k d =
    let (newest, perm) = h rows in
    let (newest', perm') = k rows in
    IsNewestFirst-unique (order rows) (other rows)
      (HasNoTies-Perm (Perm.symm perm) (Distinct-HasNoTies rows d)) newest newest'
      (Perm.trans perm (Perm.symm perm'))
