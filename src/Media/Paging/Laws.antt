-- ===== src/Media/Paging/Laws.antt =====
-- The loop reads every page, once and in order, and ends.
use mathlib.Core.List.{append_assoc, append-nil}
use save_the_date.Base.{
  ℕ, zero, suc, ◌≤◌, ◌≡◌, refl, Option, none, some, List, [], ◌∷◌, ◌++◌, arith, Text, length,
  Outcome, returned,
}
use save_the_date.Media.Paging.{Page, cursor_of, collect}

abbrev pub joined {ℓ} : {A : Type ℓ} → List (List A) → List A
joined [] = []
joined (page ∷ pages) = page ++ joined pages

module _ {A : Type 0} (fetch : Option Text → Outcome Text (Page A)) where
  -- From a cursor on, the service has these pages: each names the next by a cursor that is not
  -- empty, and the last names none.
  abbrev pub HasPages : Option Text → List (List A) → Type 0
  HasPages cursor [] = ⊥
  HasPages cursor (items ∷ []) = fetch cursor ≡ returned (record { items = items; next = none })
  HasPages cursor (items ∷ (page ∷ pages)) =
      (c : ℕ) × (s : Text) × (fetch cursor
        ≡ returned (record { items = items; next = some (c ∷ s) }))
      × HasPages (some (c ∷ s)) (page ∷ pages)

  -- With as many rounds as there are pages the loop ends, with the items of every page in order.
  pub collect-joined :
      (pages : List (List A)) (fuel : ℕ) (cursor : Option Text) (found : List A)
      → HasPages cursor pages
      → length pages ≤ fuel
      → collect fetch fuel cursor found ≡ some (returned (found ++ joined pages))
  unfolding collect cursor_of
  collect-joined [] fuel cursor found h le = absurd h
  collect-joined (items ∷ []) zero cursor found h le = absurd (omega arith)
  collect-joined (items ∷ []) (suc fuel) cursor found h le =
      rw (append-nil items) (rw (collect, h) refl)
  collect-joined (items ∷ (page ∷ pages)) zero cursor found h le = absurd (omega arith)
  collect-joined (items ∷ (page ∷ pages)) (suc fuel) cursor found (c, s, e, h) le =
      rw (← append_assoc found items (joined (page ∷ pages))) (
        rw (collect, e)
          (collect-joined (page ∷ pages) fuel (some (c ∷ s)) (found ++ items) h (omega arith)))
