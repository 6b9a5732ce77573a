-- ===== src/HallPasses/Listing/Shape.antt =====
-- The size and the number of a page: what the range that a client shows stands on.
use native.Mathlib.Nat.{div-mul-le_self, zero-mul, suc-mul, mul-le-mul_right}
use save_the_date.Base.{
  ℕ, zero, suc, ◌+◌, ◌-◌, ◌*◌, ◌/◌, ◌≤◌, ◌≡◌, Option, none, some, List, length, drop, length-take,
  length-drop, min, arith,
}
use save_the_date.HallPasses.Listing.{normalize_page_size, total_pages_of, page_of}

pub normalize-normalize_page_size :
    (limit : Option ℕ)
    → normalize_page_size (some (normalize_page_size limit)) ≡ normalize_page_size limit
unfolding normalize_page_size
normalize-normalize_page_size none = ground arith
normalize-normalize_page_size (some n) = ground arith

pub suc-sub_one : (n : ℕ) → suc n - 1 ≡ n
suc-sub_one n = omega arith

pub total_pages_of-pos : (total limit : ℕ) → 1 ≤ total_pages_of total limit
unfolding total_pages_of
total_pages_of-pos total limit = omega arith

-- No page is past the last row.
pub suc-total_pages_of :
    (k total limit : ℕ) → suc k ≤ total_pages_of total limit → k * limit ≤ total
unfolding total_pages_of
suc-total_pages_of zero total limit k = rw (zero-mul limit) (omega arith)
suc-total_pages_of (suc j) total limit k =
    let q = (total + limit - 1) / limit in
    let reached : suc (suc j) ≤ q = omega arith in
    let whole : suc (suc j) * limit ≤ q * limit = mul-le-mul_right limit reached in
    omega (arith, whole, div-mul-le_self (total + limit - 1) limit)

-- The rows of a page are those between its bounds.
pub length-page_of {ℓ} :
    {A : Type ℓ} (k limit : ℕ) (rows : List A)
    → suc k ≤ total_pages_of (length rows) limit
    → length (page_of limit (suc k) rows) + k * limit ≡ min (suc k * limit) (length rows)
unfolding page_of
length-page_of k limit rows h =
    let before : k * limit ≤ length rows = suc-total_pages_of k (length rows) limit h in
    rw
      (
        length-take limit (drop ((suc k - 1) * limit) rows),
        length-drop ((suc k - 1) * limit) rows,
        suc-sub_one k,
        suc-mul k limit,
      )
      (omega (arith, before))
