-- ===== src/Media/Paging.antt =====
-- Reading a list that a service gives in pages: the `do … while` loops of `searchFolder` in
-- apps/web/src/lib/cloudinaryMedia.ts and of `listCategoryVideos` in apps/web/src/lib/r2.ts. The
-- rounds that may be left are an argument; `none` is a loop that has used them up.
pub mod Laws
use save_the_date.Base.{
  ℕ, zero, suc, Option, none, some, List, [], ◌∷◌, ◌++◌, Text, Outcome, returned, thrown,
}

-- The items of a page, and the cursor of the next one.
pub record Page {ℓ} (A : Type ℓ) : Type ℓ where
  pub items : List A
  pub next : Option Text

-- A cursor is falsy when it is missing or empty.
unfoldable pub cursor_of : Option Text → Option Text
cursor_of none = none
cursor_of (some []) = none
cursor_of (some (c ∷ s)) = some (c ∷ s)

unfoldable pub collect {ℓ} :
    {A : Type ℓ}
    → (Option Text → Outcome Text (Page A))
    → ℕ
    → Option Text
    → List A
    → Option (Outcome Text (List A))
collect fetch zero cursor found = none
collect fetch (suc left) cursor found = elim (fetch cursor) [
  | thrown e ↦ some (thrown e)
  | returned page ↦ elim (cursor_of page.next) [
    | none ↦ some (returned (found ++ page.items))
    | some next ↦ collect fetch left (some next) (found ++ page.items)
  ]
]
