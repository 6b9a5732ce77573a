-- ===== src/Dashboard/Panel/Ranges.antt =====
-- The range of rows that the dashboard says it shows, beside the rows that it does show.
use save_the_date.Base.{
  ℕ, zero, suc, ◌+◌, ◌-◌, ◌*◌, ◌==◌, ◌≤◌, ◌≡◌, ap, ◌∙◌, List, length, min, arith, if◌then◌else◌,
}
use save_the_date.HallPasses.Model.{HallPass}
use save_the_date.HallPasses.Listing.{page_of, total_pages_of}
use save_the_date.HallPasses.Listing.Shape.{suc-sub_one, suc-total_pages_of, length-page_of}
use save_the_date.HallPasses.Listing.Order.{Sorts, length-Perm}
use save_the_date.Dashboard.Panel.{Panel}
use save_the_date.Dashboard.Panel.Loading.{range_start, range_end}

-- The panel shows the page of `rows` with its number, which is one of its pages, and the range that
-- it says. The rows are newest first, those of one instant in any order.
abbrev pub ShowsPage : List HallPass → Panel → Type 0
ShowsPage rows q =
    ((sorted : List HallPass) × Sorts sorted rows × (q.passes ≡ page_of q.page_size q.page sorted))
    × (q.total_passes ≡ length rows)
    × (1 ≤ q.page)
    × (q.page ≤ q.total_pages)
    × (length q.passes + (range_start q - 1) ≡ range_end q)

first_row :
    (k n total : ℕ)
    → suc k ≤ total_pages_of total n
    → (if total == 0 then 0 else k * n + 1) - 1 ≡ k * n
first_row k n total h = ground (arith, suc-total_pages_of k total n h)

shown_range :
    (k : ℕ) (q : Panel) (rows sorted : List HallPass)
    → Sorts sorted rows
    → q.passes ≡ page_of q.page_size (suc k) sorted
    → q.total_passes ≡ length rows
    → q.page ≡ suc k
    → suc k ≤ total_pages_of (length rows) q.page_size
    → length q.passes + (range_start q - 1) ≡ range_end q
unfolding range_start range_end
shown_range k q rows sorted s e t g h =
    let inside : suc k ≤ total_pages_of (length sorted) q.page_size = rw (length-Perm s.1) h in
    rw (e, t, g, suc-sub_one k, first_row k q.page_size (length rows) h)
      (length-page_of k q.page_size sorted inside
        ∙ ap (λ total. min (suc k * q.page_size) total) (length-Perm s.1))

pub shows_page :
    (m : ℕ) (q : Panel) (rows sorted : List HallPass)
    → Sorts sorted rows
    → q.passes ≡ page_of q.page_size m sorted
    → q.total_passes ≡ length rows
    → q.total_pages ≡ total_pages_of (length rows) q.page_size
    → q.page ≡ m
    → 1 ≤ m
    → m ≤ total_pages_of (length rows) q.page_size
    → ShowsPage rows q
shows_page zero q rows sorted s e t l g low high = absurd (omega arith)
shows_page (suc k) q rows sorted s e t l g low high =
    ((sorted, s, rw g e), t, rw g low, rw (g, l) high, shown_range k q rows sorted s e t g high)
