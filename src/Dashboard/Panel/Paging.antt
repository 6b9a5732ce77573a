-- ===== src/Dashboard/Panel/Paging.antt =====
-- The list of the dashboard against the handler that answers it: `loadPasses` and the effect that
-- calls it again when the page, its size, the tab, the filter or the search has changed.
use Prim.Native.Nat.{max}
use save_the_date.Base.{
  ◌≤◌, ◌≡◌, refl, ap, ap₂, sym, ◌∙◌, subst, Bool, true, false, Bool-cases, inl, inr, Option, none,
  some, List, [], ◌∷◌, Text, is_empty, trim, trim-trim, same, same_refl, filter, length, min,
  returned, arith, if◌then◌else◌,
}
use save_the_date.Auth.Session.{super_admin, AuthSession, can_access_role}
use save_the_date.HallPasses.Model.{HallPass, Db}
use save_the_date.HallPasses.Listing.{
  Tab, active, invalidated, StatusFilter, all, unused, used, list_hall_passes, hall_pass_filter,
  filter_of, page_of, total_pages_of, normalize_page_size,
}
use save_the_date.HallPasses.Listing.Order.{Orders}
use save_the_date.HallPasses.Listing.Shape.{normalize-normalize_page_size, total_pages_of-pos}
use save_the_date.HallPasses.InviteStats.{get_invite_from_stats}
use save_the_date.HallPasses.Settings.{get_ticket_availability}
use save_the_date.Routes.Guard.{listed, guarded}
use save_the_date.Routes.Issue.{Query, params_of, tab_of, status_of, get_passes}
use save_the_date.Dashboard.Panel.{Panel}
use save_the_date.Dashboard.Panel.Loading.{
  loaded, tab_text, status_text, sent_status, query_of, receive_list, show_list, set_availability,
  reloads, same_tab, read_list, load_passes, settle,
}
use save_the_date.Dashboard.Panel.Ranges.{ShowsPage, shows_page}

tab_of-tab_text : (tab : Tab) → tab_of (some (tab_text tab)) ≡ tab
unfolding tab_of same
tab_of-tab_text active = refl
tab_of-tab_text invalidated = refl

status_of-status_text : (status : StatusFilter) → status_of (some (status_text status)) ≡ status
unfolding status_of same
status_of-status_text all = refl
status_of-status_text unused = refl
status_of-status_text used = refl

-- An empty search is not sent, which comes to the same.
trimmed_search :
    (b : Text)
    → trim (elim (if is_empty b then none else some b) [ none ↦ [] | some s ↦ trim s ]) ≡ trim b
trimmed_search [] = refl
trimmed_search (c ∷ b) = trim-trim (c ∷ b)

-- An administrator is answered by the list.
get_passes-listed :
    (ilike : Text → Text → Bool) (order : List HallPass → List HallPass)
    (before : Text → Text → Bool) (session : Option AuthSession) (query : Query) (db : Db)
    → can_access_role session (super_admin ∷ []) ≡ true
    → get_passes ilike order before session query db ≡ (
      returned (
          listed
            (list_hall_passes ilike order (params_of query) db)
            (get_ticket_availability db)
            (get_invite_from_stats before db)),
      db,
    )
unfolding get_passes guarded can_access_role
get_passes-listed ilike order before none query db h = ground arith
get_passes-listed ilike order before (some s) query db h = rw h refl

-- What the effect looks at
reloads-false :
    (p q : Panel) → reloads p q ≡ false → (p.page ≡ q.page) × (p.page_size ≡ q.page_size)
unfolding reloads
reloads-false p q h = ground arith

same_tab_refl : (tab : Tab) → same_tab tab tab ≡ true
unfolding same_tab
same_tab_refl active = refl
same_tab_refl invalidated = refl

module _ (ilike before : Text → Text → Bool) (session : Option AuthSession) (db : Db) where
  -- The rows that the fields of the list ask for
  abbrev pub rows_of : Panel → List HallPass
  rows_of p =
      filter
        (hall_pass_filter ilike p.pass_list_tab (sent_status p.pass_list_tab p.status_filter)
          (trim p.debounced_search))
        db.passes

  rows_lem : (p : Panel) → filter (filter_of ilike (params_of (query_of p))) db.passes ≡ rows_of p
  unfolding params_of query_of
  rows_lem p =
      rw
        (
          tab_of-tab_text p.pass_list_tab,
          status_of-status_text (sent_status p.pass_list_tab p.status_filter),
          trimmed_search p.debounced_search,
        )
        refl

  received : (List HallPass → List HallPass) → Panel → Panel
  received order p =
      receive_list
        (loaded (list_hall_passes ilike order (params_of (query_of p)) db)
          (some (get_ticket_availability db)))
        p

  load_lem :
      can_access_role session (super_admin ∷ []) ≡ true
      → (order : List HallPass → List HallPass) (p : Panel)
      → load_passes ilike before session db order p ≡ received order p
  unfolding load_passes read_list received
  load_lem h order p = rw (get_passes-listed ilike order before session (query_of p) db h) refl

  -- What a page that was loaded shows
  answered :
      (order : List HallPass → List HallPass) (p : Panel)
      → let q = received order p in
        let n = normalize_page_size (some p.page_size) in
        (q.passes ≡ page_of n (max 1 p.page) (order (rows_of p)))
        × (q.total_passes ≡ length (rows_of p))
        × (q.page_size ≡ n)
        × (q.total_pages ≡ total_pages_of (length (rows_of p)) n)
        × (q.page ≡ min (max 1 p.page) (total_pages_of (length (rows_of p)) n))
        × (rows_of q ≡ rows_of p)
  unfolding receive_list show_list set_availability list_hall_passes received query_of params_of
  answered order p = (
    ap (λ rows. page_of (normalize_page_size (some p.page_size)) (max 1 p.page) (order rows))
        (rows_lem p),
    ap length (rows_lem p),
    refl,
    ap (λ rows. total_pages_of (length rows) (normalize_page_size (some p.page_size))) (rows_lem p),
    ap
        (λ rows.
          min (max 1 p.page)
            (total_pages_of (length rows) (normalize_page_size (some p.page_size))))
        (rows_lem p),
    refl,
  )

  -- A page that was asked for by its own number, which is one of the list's
  on_page :
      (order : List HallPass → List HallPass)
      → Orders order
      → (p : Panel)
      → (let total = total_pages_of (length (rows_of p)) (normalize_page_size (some p.page_size)) in
          (1 ≤ p.page) × (p.page ≤ total))
      → let q = received order p in ShowsPage (rows_of p) q × (q.page ≡ p.page)
  on_page order o p (low, high) =
      let (passes, total, size, pages, page, same_rows) = answered order p in
      let there : max 1 p.page ≡ p.page = omega arith in
      let same_page : (received order p).page ≡ p.page = omega (arith, page) in
      (
        shows_page p.page (received order p) (rows_of p) (order (rows_of p)) (o (rows_of p))
            (passes ∙ ap₂ (λ n m. page_of n m (order (rows_of p))) (sym size) there) total
            (rw size pages) same_page low (rw size high),
        same_page,
      )

  -- The page that is asked for after any answer is one of the list's.
  next_inside :
      (order : List HallPass → List HallPass) (p : Panel)
      → let q = received order p in
        (1 ≤ q.page)
        × (q.page ≤ total_pages_of (length (rows_of q)) (normalize_page_size (some q.page_size)))
        × (normalize_page_size (some q.page_size) ≡ q.page_size)
  next_inside order p =
      let (passes, total, size, pages, page, same_rows) = answered order p in
      let some_page =
        total_pages_of-pos (length (rows_of p)) (normalize_page_size (some p.page_size)) in
      (
        omega (arith, page, some_page),
        rw (same_rows, size, normalize-normalize_page_size (some p.page_size))
            (omega (arith, page)),
        rw (size, normalize-normalize_page_size (some p.page_size)) refl,
      )

  kept :
      (order : List HallPass → List HallPass) (p : Panel)
      → (received order p).page ≡ p.page
      → (received order p).page_size ≡ p.page_size
      → reloads p (received order p) ≡ false
  unfolding reloads received receive_list show_list set_availability
  kept order p page size = ground (
    arith,
    page,
    size,
    same_tab_refl p.pass_list_tab,
    same_refl (status_text p.status_filter),
    same_refl p.debounced_search,
  )

  module _ (order next : List HallPass → List HallPass) (o : Orders order) (o' : Orders next) where
    reloaded :
        (p : Panel)
        → let q = received order p in
          ShowsPage (rows_of p) (received next q) × (reloads q (received next q) ≡ false)
    reloaded p =
        let (passes, total, size, pages, page, same_rows) = answered order p in
        let (low, high, size') = next_inside order p in
        let (shows, same_page) = on_page next o' (received order p) (low, high) in
        (
          subst (λ rows. ShowsPage rows (received next (received order p))) same_rows shows,
          kept next (received order p) same_page ((answered next (received order p)).2 ∙ size'),
        )

    -- Where the first answer asks for no other, it is the page that was asked for.
    stayed :
        (p : Panel)
        → reloads p (received order p) ≡ false
        → ShowsPage (rows_of p) (received order p)
    stayed p stays =
        let (page, size) = reloads-false p (received order p) stays in
        let (low, high, size') = next_inside order p in
        let same_rows = (answered order p).5 in
        let pages =
          ap₂ (λ rows n. total_pages_of (length rows) (normalize_page_size (some n))) same_rows
            (sym size) in
        (on_page order o p (omega (arith, page, low), omega (arith, page, high, pages))).0

    settled_lem :
        (p : Panel)
        → let q = received order p in
          ShowsPage (rows_of p) (if reloads p q then received next q else q)
          × (reloads q (received next q) ≡ false)
    settled_lem p = elim (Bool-cases (reloads p (received order p))) [
      | inl again ↦ rw again (reloaded p)
      | inr stays ↦ rw stays (stayed p stays, (reloaded p).1)
    ]

    -- For an administrator's session and over tables that do not change meanwhile, whatever order
    -- PostgreSQL gives the rows of one instant in either query, the list that the dashboard has
    -- after a load, and after the load that the effect then asks for, is the page with the number
    -- that it shows of the rows that its tab, filter and search ask for, newest first. That number
    -- is from one to the number of pages, whatever page and size were asked for, and the range
    -- beside the list ends where the shown rows do. The effect does not ask for a third load.
    pub settle-ShowsPage :
        can_access_role session (super_admin ∷ []) ≡ true
        → (p : Panel)
        → let load = load_passes ilike before session db in
          ShowsPage (rows_of p) (settle ilike before session db order next p)
          × (reloads (load order p) (load next (load order p)) ≡ false)
    unfolding settle
    settle-ShowsPage h p =
        rw (load_lem h order p, load_lem h next (received order p)) (settled_lem p)
