-- ===== src/Dashboard/Panel/Loading.antt =====
-- `loadPasses` of apps/web/src/components/admin/PassDashboard.tsx and the effect that calls it again,
-- cut at the request, and as one with the handler that answers it.
use save_the_date.Base.{
  ℕ, ◌+◌, ◌-◌, ◌*◌, ◌==◌, Bool, true, false, not, ◌&&◌, ◌||◌, Option, none, some, List, Text, codes,
  is_empty, same, min, if◌then◌else◌,
}
use save_the_date.HallPasses.Model.{TicketAvailability}
use save_the_date.HallPasses.Listing.{
  Tab, active, invalidated, StatusFilter, all, unused, used, ListResult,
}
use save_the_date.Routes.Issue.{Query}
use save_the_date.Base.{Outcome, returned}
use save_the_date.Auth.Session.{AuthSession}
use save_the_date.HallPasses.Model.{HallPass, Db}
use save_the_date.Routes.Guard.{Response, listed, RouteError}
use save_the_date.Routes.Issue.{get_passes}
use save_the_date.Dashboard.Panel.{Panel, notice}

abbrev pub tab_text : Tab → Text
tab_text active = codes "active"
tab_text invalidated = codes "invalidated"

abbrev pub status_text : StatusFilter → Text
status_text all = codes "all"
status_text unused = codes "unused"
status_text used = codes "used"

-- `passListTab === "active" ? statusFilter : "all"`
abbrev pub sent_status : Tab → StatusFilter → StatusFilter
sent_status active status = status
sent_status invalidated status = all

-- `loadPasses`, up to its request: the parameters of it
unfoldable pub query_of : Panel → Query
query_of p = record {
  page = some p.page;
  limit = some p.page_size;
  tab = some (tab_text p.pass_list_tab);
  status = some (status_text (sent_status p.pass_list_tab p.status_filter));
  search = if is_empty p.debounced_search then none else some p.debounced_search;
}

-- The answer to the request: the page with the availability of tickets, or a refusal
pub data Loaded : Type 0 where
  loaded : ListResult → Option TicketAvailability → Loaded
  refused : Loaded

unfoldable pub show_list : ListResult → Panel → Panel
show_list r p = record p {
  passes = r.passes;
  page = r.page;
  page_size = r.limit;
  total_passes = r.total;
  total_pages = r.total_pages;
  active_pass_count = r.active_count;
  invalidated_pass_count = r.invalidated_count;
}

unfoldable pub set_availability : Option TicketAvailability → Panel → Panel
set_availability none p = p
set_availability (some a) p = record p { ticket_availability = a }

-- The rest of `loadPasses`, silent or not
unfoldable pub receive_list : Loaded → Panel → Panel
receive_list (loaded r a) p = set_availability a (show_list r p)
receive_list refused p = notice (codes "Could not load passes") p

unfoldable pub finish_loading : Bool → Panel → Panel
finish_loading silent p = if silent then p else record p { is_loading_passes = false }

-- The effect on `page`, `pageSize`, the tab, the filter and the search: whether it loads again
-- after the first panel has become the second
unfoldable pub same_tab : Tab → Tab → Bool
same_tab active active = true
same_tab invalidated invalidated = true
same_tab active invalidated = false
same_tab invalidated active = false

unfoldable pub reloads : Panel → Panel → Bool
reloads p q =
    not (p.page == q.page && p.page_size == q.page_size)
    || not (same_tab p.pass_list_tab q.pass_list_tab)
    || not (same (status_text p.status_filter) (status_text q.status_filter))
    || not (same p.debounced_search q.debounced_search)

-- `rangeStart` and `rangeEnd`
unfoldable pub range_start : Panel → ℕ
range_start p = if p.total_passes == 0 then 0 else (p.page - 1) * p.page_size + 1

unfoldable pub range_end : Panel → ℕ
range_end p = min (p.page * p.page_size) p.total_passes

-- `response.ok`, and the body of the answer
unfoldable pub read_list : Outcome RouteError Response → Loaded
read_list (returned (listed r a stats)) = loaded r (some a)
read_list other = refused

-- PostgreSQL's `ilike` and the order of its texts, the session of the request and the tables
module _ (ilike before : Text → Text → Bool) (session : Option AuthSession) (db : Db) where
  -- `loadPasses`, answered by the handler of the list, with the order that the rows of its query
  -- have
  unfoldable pub load_passes : (List HallPass → List HallPass) → Panel → Panel
  load_passes order p =
      receive_list (read_list (get_passes ilike order before session (query_of p) db).0) p

  -- The list is loaded, and loaded again if the effect asks for it.
  unfoldable pub settle :
      (List HallPass → List HallPass) → (List HallPass → List HallPass) → Panel → Panel
  settle order next p =
      let q = load_passes order p in
      let again = load_passes next q in if reloads p q then again else q
