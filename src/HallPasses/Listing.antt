-- ===== src/HallPasses/Listing.antt =====
-- The list of passes, a page at a time: apps/web/src/lib/hallPassPaging.ts, and
-- `buildHallPassFilters`, `listHallPasses` and `listRecentScanAttempts` of
-- apps/web/src/lib/hallPasses.ts. Page numbers and sizes are natural numbers. `ilike` is
-- PostgreSQL's operator, on a name and a pattern, and `order` its order of the rows of one query by
-- `created_at desc`, which says nothing of rows of one instant.
pub mod Insertion
pub mod Order
pub mod Pages
pub mod Shape
use Prim.Native.Nat.{max}
use save_the_date.Base.{
  ℕ, ◌+◌, ◌-◌, ◌*◌, ◌/◌, min, Bool, true, ◌&&◌, Option, none, some, List, [], ◌∷◌, ◌++◌, Text,
  codes, is_empty, is_none, is_some, or_else, trim, length, filter, count, any, take, drop, leb,
  ◌==◌, if◌then◌else◌,
}
use save_the_date.HallPasses.Model.{HallPass, ScanAttempt, Db, is_active}

abbrev pub hall_pass_page_sizes : List ℕ
hall_pass_page_sizes = 25 ∷ 50 ∷ 100 ∷ 200 ∷ []

pub data Tab : Type 0 where
  active invalidated : Tab

pub data StatusFilter : Type 0 where
  all unused used : StatusFilter

pub record ListParams : Type 0 where
  pub page : Option ℕ
  pub limit : Option ℕ
  pub tab : Option Tab
  pub status : Option StatusFilter
  pub search : Option Text

pub record ListResult : Type 0 where
  pub passes : List HallPass
  pub total : ℕ
  pub page : ℕ
  pub limit : ℕ
  pub total_pages : ℕ
  pub active_count : ℕ
  pub invalidated_count : ℕ

-- `normalizeHallPassPageSize(limit)`
unfoldable pub normalize_page_size : Option ℕ → ℕ
normalize_page_size limit =
    if any (λ size. size == or_else limit 50) hall_pass_page_sizes then or_else limit 50 else 50

-- The condition on the tab, and that on the status, which only the active tab has.
tab_test : Tab → StatusFilter → HallPass → Bool
tab_test active all p = is_active p
tab_test active unused p = is_active p && is_none p.used_at
tab_test active used p = is_active p && is_some p.used_at
tab_test invalidated status p = is_some p.invalidated_at

-- `coalesce(guest_name, '') ilike '%search%'`, left out where the search is empty
search_test : (Text → Text → Bool) → Text → HallPass → Bool
search_test ilike search p =
    if is_empty search
    then true
    else ilike (or_else p.guest_name []) (codes "%" ++ (search ++ codes "%"))

-- `buildHallPassFilters`: the rows that the `where` clause keeps
unfoldable pub hall_pass_filter : (Text → Text → Bool) → Tab → StatusFilter → Text → HallPass → Bool
unfolding tab_test search_test
hall_pass_filter ilike tab status search p = tab_test tab status p && search_test ilike search p

-- `Math.ceil(total / limit)`
ceil_div : ℕ → ℕ → ℕ
ceil_div total limit = (total + limit - 1) / limit

unfoldable pub total_pages_of : ℕ → ℕ → ℕ
unfolding ceil_div
total_pages_of total limit = max 1 (ceil_div total limit)

-- `limit … offset …`
unfoldable pub page_of {ℓ} : {A : Type ℓ} → ℕ → ℕ → List A → List A
page_of limit page rows = take limit (drop ((page - 1) * limit) rows)

abbrev pub filter_of : (Text → Text → Bool) → ListParams → HallPass → Bool
filter_of ilike params =
    hall_pass_filter ilike (or_else params.tab active) (or_else params.status all)
      (elim params.search [ none ↦ [] | some s ↦ trim s ])

-- `listHallPasses(params)`
unfoldable pub list_hall_passes :
    (Text → Text → Bool) → (List HallPass → List HallPass) → ListParams → Db → ListResult
unfolding normalize_page_size hall_pass_filter tab_test search_test total_pages_of page_of
list_hall_passes ilike order params db =
    let limit = normalize_page_size params.limit in
    let page = max 1 (or_else params.page 1) in
    let rows = filter (filter_of ilike params) db.passes in
    let total = length rows in
    let total_pages = total_pages_of total limit in
    record {
      passes = page_of limit page (order rows);
      total = total;
      page = min page total_pages;
      limit = limit;
      total_pages = total_pages;
      active_count = count is_active db.passes;
      invalidated_count = count (λ p. is_some p.invalidated_at) db.passes;
    }

-- `listRecentScanAttempts(limit)`, for PostgreSQL's order of the rows by `scanned_at desc`
pub list_recent_scan_attempts :
    (List ScanAttempt → List ScanAttempt) → Option ℕ → Db → List ScanAttempt
list_recent_scan_attempts order limit db = take (or_else limit 50) (order db.scans)
