-- ===== src/Dashboard/Panel/Counts.antt =====
-- What the dashboard counts after an invalidation, before the list is loaded again.
use save_the_date.Base.{
  ℕ, ◌≡◌, ◌≢◌, refl, true, not, ◌&&◌, Option, none, some, List, [], ◌∷◌, Text, arith, All, Distinct,
  any, count, filter, ◌==◌, returned,
}
use save_the_date.Auth.Session.{AuthSession}
use save_the_date.HallPasses.Model.{HallPass, Db, TicketAvailability, is_active}
use save_the_date.HallPasses.Settings.{get_ticket_availability}
use save_the_date.HallPasses.Manage.{invalidate_hall_pass}
use save_the_date.HallPasses.Manage.Counts.{is_void, invalidate_hall_pass-counts}
use save_the_date.Routes.Guard.{invalidated}
use save_the_date.Routes.Administer.{answer_invalidated, invalidate_one}
use save_the_date.Dashboard.Panel.{Panel}
use save_the_date.Dashboard.Panel.Dialogs.{invalidated_pass, drop_pass, set_limit_of}

-- The panel counts the active and the invalidated passes of the tables.
abbrev pub Counts : Db → Panel → Type 0
Counts db p =
    (p.active_pass_count ≡ count is_active db.passes)
    × (p.invalidated_pass_count ≡ count is_void db.passes)

All-filter_out :
    (id : ℕ) (ps : List HallPass) → All (λ q. q.id ≢ id) (filter (λ q. not (q.id == id)) ps)
All-filter_out id [] = tt
All-filter_out id (p ∷ ps) = ground (arith, All-filter_out id ps)

answer_lem :
    (found : Option HallPass) (db : Db) (pass : HallPass) (a : TicketAvailability)
    → (answer_invalidated found db).0 ≡ returned (invalidated pass a)
    → ((answer_invalidated found db).1 ≡ db) × (a ≡ get_ticket_availability db)
unfolding answer_invalidated
answer_lem none db pass a answer = absurd (ground (arith, answer))
answer_lem (some p) db pass a answer = (refl, ground (arith, answer))

module _ (decimal : ℕ → Text) (now id : ℕ) (by : AuthSession) (db : Db) where
  -- Where the ids of passes do not repeat, the pass is active and the dashboard has the counts of
  -- the tables, its counts after the handler's answer are those of the tables after the
  -- invalidation, its availability is theirs, and no row of its list is the pass.
  pub invalidated_pass-Counts :
      (p : Panel) (pass : HallPass) (a : TicketAvailability)
      → Distinct HallPass.id db.passes
      → any (λ q. q.id == id && is_active q) db.passes ≡ true
      → Counts db p
      → (invalidate_one now id by db).0 ≡ returned (invalidated pass a)
      → let after = (invalidate_one now id by db).1 in
        let q = invalidated_pass decimal true (some pass) (some a) p in
        Counts after q
        × (q.ticket_availability ≡ get_ticket_availability after)
        × All (λ r. r.id ≢ pass.id) q.passes
  unfolding invalidate_one invalidated_pass drop_pass set_limit_of
  invalidated_pass-Counts p pass a d h counts answer =
      let found = invalidate_hall_pass id by now db in
      let (same_rows, available) = answer_lem found.0 found.1 pass a answer in
      let (fewer, more) = invalidate_hall_pass-counts id now by db d h in
      (
        (
          rw same_rows (omega (arith, counts.0, fewer)),
          rw same_rows (omega (arith, counts.1, more)),
        ),
        rw same_rows available,
        All-filter_out pass.id p.passes,
      )
