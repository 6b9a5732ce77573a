-- ===== src/Dashboard/Panel/Tests.antt =====
-- The panel over the three passes of the tests of the hall passes.
use save_the_date.Base.{◌≡◌, ◌≢◌, refl, true, false, none, some, [], ◌∷◌, codes, All, returned}
use save_the_date.Auth.Session.{can_access_role}
use save_the_date.HallPasses.Model.{HallPass, TicketAvailability}
use save_the_date.HallPasses.Listing.{active, all}
use save_the_date.HallPasses.Settings.{get_ticket_availability}
use save_the_date.HallPasses.Manage.{mark_invalidated, invalidate_hall_pass}
use save_the_date.HallPasses.Tests.{admin, ilike, db, db-IsWellFormed, open_pass}
use save_the_date.Routes.Guard.{invalidated}
use save_the_date.Routes.Administer.{answer_invalidated, invalidate_one}
use save_the_date.HallPasses.Listing.Insertion.{order_desc, order_desc-Orders}
use save_the_date.Dashboard.Panel.{Panel}
use save_the_date.Dashboard.Panel.Loading.{reloads, load_passes, settle}
use save_the_date.Dashboard.Panel.Dialogs.{invalidated_pass}
use save_the_date.Dashboard.Panel.Counts.{Counts, invalidated_pass-Counts}
use save_the_date.Dashboard.Panel.Ranges.{ShowsPage}
use save_the_date.Dashboard.Panel.Paging.{rows_of, settle-ShowsPage}

abbrev no_limit : TicketAvailability
no_limit = record { ticket_limit = none; issued_count = 0; remaining_count = none }

-- The ninth page of thirty passes is asked for, a size that the server does not know.
abbrev panel : Panel
panel = record {
  search_query = codes "Ada ";
  debounced_search = codes "Ada";
  status_filter = all;
  pass_list_tab = active;
  page = 9;
  page_size = 30;
  total_passes = 0;
  total_pages = 1;
  active_pass_count = 2;
  invalidated_pass_count = 1;
  passes = open_pass ∷ [];
  ticket_availability = no_limit;
  ticket_limit_input = [];
  selected_pass = none;
  pass_to_invalidate = some open_pass;
  pass_to_email = none;
  recipient_email = [];
  email_message = [];
  resend_email = [];
  resend_message = [];
  is_loading_passes = false;
  is_editing_ticket_limit = false;
  is_saving_ticket_limit = false;
  is_invalidating = true;
  is_resending_email = false;
  error = [];
  toasts = [];
}

settle-ShowsPage_example :
    let load = load_passes ilike ilike (some admin) db in
    ShowsPage
      (rows_of ilike ilike (some admin) db panel)
      (settle ilike ilike (some admin) db order_desc order_desc panel)
    × (reloads (load order_desc panel) (load order_desc (load order_desc panel)) ≡ false)
unfolding can_access_role
settle-ShowsPage_example =
    settle-ShowsPage ilike ilike (some admin) db order_desc order_desc order_desc-Orders
      order_desc-Orders refl panel

abbrev void_now : HallPass
void_now = record open_pass { invalidated_at = some 500; invalidated_by = some admin.email }

abbrev available : TicketAvailability
available = get_ticket_availability (invalidate_hall_pass 11 admin 500 db).1

is_answered : (invalidate_one 500 11 admin db).0 ≡ returned (invalidated void_now available)
unfolding invalidate_one answer_invalidated invalidate_hall_pass mark_invalidated
is_answered = refl

invalidated_pass-Counts_example :
    let after = (invalidate_one 500 11 admin db).1 in
    let q = invalidated_pass (λ n. n ∷ []) true (some void_now) (some available) panel in
    Counts after q
    × (q.ticket_availability ≡ get_ticket_availability after)
    × All (λ r. r.id ≢ 11) q.passes
invalidated_pass-Counts_example =
    invalidated_pass-Counts (λ n. n ∷ []) 500 11 admin db panel void_now available
      db-IsWellFormed.ids refl (refl, refl) is_answered
