-- ===== src/HallPasses/Listing/Pages.antt =====
-- The pages of a listing, laid end to end.
use Prim.Native.Nat.{max}
use Prim.Native.Nat.add
use native.Mathlib.Nat.{lt-div-mul-add, zero-mul}
use save_the_date.Base.{
  ℕ, zero, suc, ◌+◌, ◌-◌, ◌*◌, ◌/◌, ◌≤◌, ◌<◌, ◌≡◌, refl, Option, none, some, List, [], ◌∷◌, ◌++◌,
  arith, Text, ap, ap₂, sym, subst, ◌∙◌, Bool, length, filter, take, drop, Distinct,
}
use save_the_date.HallPasses.Model.{HallPass, Db}
use save_the_date.HallPasses.Listing.{
  ListParams, normalize_page_size, total_pages_of, page_of, filter_of, list_hall_passes,
}
use save_the_date.HallPasses.Listing.Order.{Sorts, Orders, one_order, length-Perm}

module _ {ℓ} {A : Type ℓ} where
  take_nil : (m : ℕ) → take {A = A} m [] ≡ []
  take_nil zero = refl
  take_nil (suc m) = refl

  take-add : (n m : ℕ) (xs : List A) → take n xs ++ take m (drop n xs) ≡ take (n + m) xs
  take-add zero m xs = rw (add.zero m)
  take-add (suc n) m [] = rw (add.suc n m) (take_nil m)
  take-add (suc n) m (x ∷ xs) = rw (add.suc n m) (ap (λ ys. x ∷ ys) (take-add n m xs))

  take_all : (n : ℕ) (xs : List A) → length xs ≤ n → take n xs ≡ xs
  take_all zero [] h = refl
  take_all zero (x ∷ xs) h = absurd (omega arith)
  take_all (suc n) [] h = refl
  take_all (suc n) (x ∷ xs) h = ap (λ ys. x ∷ ys) (take_all n xs (omega arith))

  drop_all : (n : ℕ) (xs : List A) → length xs ≤ n → drop n xs ≡ []
  drop_all zero [] h = refl
  drop_all zero (x ∷ xs) h = absurd (omega arith)
  drop_all (suc n) [] h = refl
  drop_all (suc n) (x ∷ xs) h = drop_all n xs (omega arith)

normalize_page_size_pos : (limit : Option ℕ) → 0 < normalize_page_size limit
unfolding normalize_page_size
normalize_page_size_pos none = ground arith
normalize_page_size_pos (some n) = ground arith

max-one : (q : ℕ) → max 1 (suc q) ≡ suc q
max-one q = omega arith

suc-sub_one : (n : ℕ) → suc n - 1 ≡ n
suc-sub_one n = omega arith

at_least_one : (total q limit : ℕ) → total ≤ q * limit → total ≤ max 1 q * limit
at_least_one total zero limit h = omega arith
at_least_one total (suc q) limit h = rw (max-one q) h

-- The last page reaches the end.
le-total_pages_of : (total limit : ℕ) → 0 < limit → total ≤ total_pages_of total limit * limit
unfolding total_pages_of
le-total_pages_of total limit h =
    at_least_one total ((total + limit - 1) / limit) limit
      (omega (arith, lt-div-mul-add {a = total + limit - 1} {b = limit} h))

-- The first pages, laid end to end.
abbrev pub first_pages {ℓ} : {A : Type ℓ} → (ℕ → List A) → ℕ → List A
first_pages page zero = []
first_pages page (suc n) = first_pages page n ++ page (suc n)

first_pages-page_of {ℓ} :
    {A : Type ℓ} (limit n : ℕ) (xs : List A)
    → first_pages (λ page. page_of limit page xs) n ≡ take (n * limit) xs
unfolding page_of
first_pages-page_of limit zero xs = rw (zero-mul limit)
first_pages-page_of limit (suc n) xs =
    rw (first_pages-page_of limit n xs, suc-sub_one n, take-add (n * limit) limit xs)
      (ap (λ k. take k xs) (omega arith))

first_pages_ext {ℓ} :
    {A : Type ℓ} (f g : ℕ → List A) (n : ℕ)
    → ((k : ℕ) → f (suc k) ≡ g (suc k))
    → first_pages f n ≡ first_pages g n
first_pages_ext f g zero h = refl
first_pages_ext f g (suc n) h = ap₂ (λ xs ys. xs ++ ys) (first_pages_ext f g n h) (h n)

-- The parameters of a listing, for another page.
abbrev pub at_page : ListParams → ℕ → ListParams
at_page params page = record params { page = some page }

module _ (ilike : Text → Text → Bool) (params : ListParams) (db : Db) where
  -- Each page is asked for in a query of its own, with the order that PostgreSQL gives the rows of
  -- that query. Where no two of the rows that the filter keeps were created at the same instant,
  -- the pages from the first to `totalPages` are, laid end to end, these rows, each as often as the
  -- table has it and newest first.
  pub list_hall_passes_pages :
      (orders : ℕ → List HallPass → List HallPass)
      → ((page : ℕ) → Orders (orders page))
      → let rows = filter (filter_of ilike params) db.passes in
        Distinct HallPass.created_at rows
        → Sorts
            (first_pages
              (λ page. (list_hall_passes ilike (orders page) (at_page params page) db).passes)
              (list_hall_passes ilike (orders 0) params db).total_pages)
            rows
  unfolding list_hall_passes
  list_hall_passes_pages orders h distinct =
      let rows = filter (filter_of ilike params) db.passes in
      let limit = normalize_page_size params.limit in
      let last = total_pages_of (length rows) limit in
      let sorted = orders 0 rows in
      let reach : length sorted ≤ last * limit =
        rw (length-Perm (h 0 rows).1)
          (le-total_pages_of (length rows) limit (normalize_page_size_pos params.limit)) in
      subst (λ pages. Sorts pages rows)
        (sym (
          first_pages_ext
            (λ page. (list_hall_passes ilike (orders page) (at_page params page) db).passes)
            (λ page. page_of limit page sorted) last
            (λ k.
              ap₂ (λ n xs. page_of limit n xs) (max-one k)
                (one_order (orders (suc k)) (orders 0) rows (h (suc k)) (h 0) distinct))
          ∙ first_pages-page_of limit last sorted
          ∙ take_all (last * limit) sorted reach))
        (h 0 rows)
