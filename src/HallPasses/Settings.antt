-- ===== src/HallPasses/Settings.antt =====
-- The ticket limit: `getTicketAvailability` and `updateTicketLimit` of
-- apps/web/src/lib/hallPasses.ts.
use save_the_date.Base.{ℕ, ◌-◌, Option, none, some, count}
use save_the_date.HallPasses.Model.{TicketAvailability, TicketSettings, Db, is_active}
use save_the_date.Auth.Session.{AuthSession}

-- `greatest(ts.ticket_limit - count(…), 0)`, or null without a limit; `-` on ℕ stops at 0.
remaining : Option ℕ → ℕ → Option ℕ
remaining none issued = none
remaining (some limit) issued = some (limit - issued)

-- The row of the query, or the default where `ticket_settings` has none.
pub get_ticket_availability : Db → TicketAvailability
get_ticket_availability db = elim db.settings [
  | none ↦ record { ticket_limit = none; issued_count = 0; remaining_count = none }
  | some row ↦ record {
    ticket_limit = row.ticket_limit;
    issued_count = count is_active db.passes;
    remaining_count = remaining row.ticket_limit (count is_active db.passes);
  }
]

set_limit : Option ℕ → AuthSession → ℕ → Option TicketSettings → Option TicketSettings
set_limit limit by now none = none
set_limit limit by now (some row) =
    some (record { ticket_limit = limit; updated_by = some by.email; updated_at = now })

-- `updateTicketLimit(ticketLimit, updatedBy)`
unfoldable pub update_ticket_limit : Option ℕ → AuthSession → ℕ → Db → TicketAvailability × Db
unfolding set_limit
update_ticket_limit limit by now db =
    let db' = record db { settings = set_limit limit by now db.settings } in
    (get_ticket_availability db', db')
