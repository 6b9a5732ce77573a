-- ===== src/Dashboard/Panel.antt =====
-- The list of the dashboard, the limit and the dialogs of a pass: their state, and the handlers as
-- functions on it. A handler that waits is cut where it waits: what stands before the `await` is one
-- function, what stands after it another. `toasts` has the titles of the notices, the last one
-- first. The picture of a QR code stands for its value.
pub mod Loading
pub mod Dialogs
pub mod Counts
pub mod Ranges
pub mod Paging
pub mod Tests
use save_the_date.Base.{
  ℕ, suc, ◌+◌, ◌-◌, ◌*◌, ◌==◌, Bool, true, false, not, ◌&&◌, ◌||◌, Option, none, some, List, [],
  ◌∷◌, ◌++◌, map, Text, codes, is_empty, same, trim, filter, update_where, min, leb, ltb, or_else,
  if◌then◌else◌,
}
use Prim.Native.Nat.{max}
use save_the_date.Mail.Address.{is_likely_email}
use save_the_date.HallPasses.Model.{HallPass, TicketAvailability}
use save_the_date.HallPasses.Listing.{
  Tab, active, invalidated, StatusFilter, all, unused, used, ListResult, normalize_page_size,
}
use save_the_date.Routes.Issue.{Query}
use save_the_date.Routes.Administer.{EmailBody}

-- `GeneratedPass`
pub record Preview : Type 0 where
  pub pass : HallPass
  pub qr_value : Text

pub record Panel : Type 0 where
  pub search_query : Text
  pub debounced_search : Text
  pub status_filter : StatusFilter
  pub pass_list_tab : Tab
  pub page : ℕ
  pub page_size : ℕ
  pub total_passes : ℕ
  pub total_pages : ℕ
  pub active_pass_count : ℕ
  pub invalidated_pass_count : ℕ
  pub passes : List HallPass
  pub ticket_availability : TicketAvailability
  pub ticket_limit_input : Text
  pub selected_pass : Option Preview
  pub pass_to_invalidate : Option HallPass
  pub pass_to_email : Option HallPass
  pub recipient_email : Text
  pub email_message : Text
  pub resend_email : Text
  pub resend_message : Text
  pub is_loading_passes : Bool
  pub is_editing_ticket_limit : Bool
  pub is_saving_ticket_limit : Bool
  pub is_invalidating : Bool
  pub is_resending_email : Bool
  pub error : Text
  pub toasts : List Text

abbrev pub notice : Text → Panel → Panel
notice title p = record p { toasts = title ∷ p.toasts }

-- The timer of the search field has run out.
unfoldable pub debounce : Panel → Panel
debounce p =
    let next_search = trim p.search_query in
    record p {
      page = if same p.debounced_search next_search then p.page else 1;
      debounced_search = next_search;
    }

-- What the fields and buttons of the list set; a size that is not one of the list's is 50.
unfoldable pub change_search : Text → Panel → Panel
change_search value p = record p { search_query = value }

unfoldable pub change_tab : Tab → Panel → Panel
change_tab tab p = record p { pass_list_tab = tab; page = 1 }

unfoldable pub change_status : StatusFilter → Panel → Panel
change_status status p = record p { status_filter = status; page = 1 }

unfoldable pub change_page_size : ℕ → Panel → Panel
change_page_size size p = record p { page_size = normalize_page_size (some size); page = 1 }

-- The buttons are disabled on the first and on the last page, and while a page is loaded.
unfoldable pub previous_page : Panel → Panel
previous_page p =
    if leb p.page 1 || p.is_loading_passes then p else record p { page = max 1 (p.page - 1) }

unfoldable pub next_page : Panel → Panel
next_page p =
    if leb p.total_pages p.page || p.is_loading_passes
    then p
    else record p { page = min p.total_pages (p.page + 1) }
