-- ===== src/HallPasses/Tests.antt =====
-- The hall pass tables at concrete rows.
use save_the_date.Base.{
  All, ◌≢◌, Distinct, zero, suc, false, any, returned, ℕ, ◌+◌, ◌≤◌, ◌<◌, ◌≡◌, refl, Bool, true,
  Option, none, some, List, [], ◌∷◌, arith, Text, codes, count, length, ◌==◌, same, filter,
}
use save_the_date.HallPasses.Model.{HallPass, not_sent, Db, IsWellFormed}
use save_the_date.Auth.Session.{AuthSession, super_admin}
use save_the_date.HallPasses.Redeem.{redeem_hall_pass}
use save_the_date.HallPasses.Redeem.Answer.{verdict, pass_of, redeem-verdict}
use save_the_date.HallPasses.Create.{
  Draw, create_readable_token, create_hall_passes, configured_limit,
}
use save_the_date.HallPasses.Create.Limit.{Created, create_hall_passes-Created}
use save_the_date.HallPasses.Create.Success.{IsFresh, token_of, create_hall_passes_succeeds}
use save_the_date.HallPasses.InviteStats.{InviteFromStat, inviter, get_invite_from_stats}
use save_the_date.HallPasses.InviteStats.Laws.{tallied, get_invite_from_stats-tallied}
use save_the_date.HallPasses.Listing.{ListParams, list_hall_passes, filter_of, hall_pass_filter}
use save_the_date.HallPasses.Listing.Insertion.{order_desc, order_desc-Orders}
use save_the_date.HallPasses.Listing.Order.{Sorts}
use save_the_date.HallPasses.Listing.Pages.{first_pages, at_page, list_hall_passes_pages}
use save_the_date.HallPasses.Trace.{
  Op, redeem, invalidate, create, run, run_admits_once, run_never_readmits, step, step-IsWellFormed,
}

-- Upper case is not at work in these examples.
abbrev pub upper : Text → Text
upper s = s

abbrev pub ilike : Text → Text → Bool
ilike name pattern = true

abbrev pub admin : AuthSession
admin = record { user_id = codes "u1"; email = codes "a@b.c"; role = super_admin; issued_at = 0 }

abbrev pub pass : ℕ → ℕ → Text → ℕ → Option ℕ → Option ℕ → HallPass
pass id number token at used_at invalidated_at = record {
  id = id;
  ticket_number = number;
  token = token;
  guest_name = some (codes "Ada");
  invite_from = some (codes "Bride");
  created_by = some (codes "a@b.c");
  created_at = at;
  used_at = used_at;
  used_by = none;
  invalidated_at = invalidated_at;
  invalidated_by = none;
  email_recipient = none;
  email_status = not_sent;
  email_sent_at = none;
  email_error = none;
}

abbrev pub open_pass : HallPass
open_pass = pass 11 1 (codes "HP-A") 100 none none

abbrev pub used_pass : HallPass
used_pass = pass 12 2 (codes "HP-B") 100 (some 150) none

abbrev pub void_pass : HallPass
void_pass = pass 13 3 (codes "HP-C") 120 none (some 160)

abbrev pub db : Db
db = record {
  passes = void_pass ∷ used_pass ∷ open_pass ∷ [];
  next_ticket = 4;
  settings = some (record { ticket_limit = some 4; updated_by = none; updated_at = 0 });
  scans = [];
}

pub db-IsWellFormed : IsWellFormed db
db-IsWellFormed = ground arith

abbrev pub draws : ℕ → Draw
draws n = record { bytes = n ∷ n ∷ n ∷ n ∷ n ∷ n ∷ n ∷ n ∷ []; id = 100 + n }

readable : create_readable_token (0 ∷ 31 ∷ 32 ∷ 255 ∷ 8 ∷ 24 ∷ 1 ∷ 2 ∷ []) ≡ codes "HP-A9A9-J2BC"
unfolding create_readable_token
readable = refl

abbrev all_rows : ListParams
all_rows = record { page = none; limit = some 25; tab = none; status = none; search = none }

-- The open pass is scanned twice, and once more after it was invalidated.
abbrev pub scans : List Op
scans =
    redeem (codes "HP-A") none 200
    ∷ redeem (codes "HP-A") none 201
    ∷ invalidate 11 admin 202
    ∷ redeem (codes "HP-A") none 203
    ∷ create (codes "Eve" ∷ codes "Bob" ∷ []) none admin 204 draws
    ∷ redeem (codes "HP-B") none 205
    ∷ []

run_admits_once_example : count (λ j. j == 11) (run upper scans db).0 ≤ 1
run_admits_once_example = run_admits_once upper scans db 11 db-IsWellFormed

run_never_readmits_example : count (λ j. j == 12) (run upper scans db).0 ≡ 0
run_never_readmits_example = run_never_readmits upper scans db 12 db-IsWellFormed refl

redeem-verdict_example :
    (redeem_hall_pass upper (codes "HP-A") none 200 db).0
    ≡ verdict 200 (pass_of (codes "HP-A") db.passes)
redeem-verdict_example = redeem-verdict upper (codes "HP-A") none 200 db db-IsWellFormed

create_hall_passes-Created_example :
    Created upper 300 none admin
      (codes "Eve" ∷ codes "Bob" ∷ [])
      db
      (create_hall_passes upper 300 none admin draws (codes "Eve" ∷ codes "Bob" ∷ []) db)
create_hall_passes-Created_example =
    create_hall_passes-Created upper 300 none admin draws (codes "Eve" ∷ codes "Bob" ∷ []) db
      db-IsWellFormed

-- As many passes as asked for, each created after those before it
many : ℕ → List HallPass
many zero = []
many (suc n) = pass (100 + n) (100 + n) (codes "HP-M") (200 + n) none none ∷ many n

many-Below : (m n : ℕ) → n ≤ m → All (λ p. 200 + m ≢ p.created_at) (many n)
unfolding many
many-Below m zero h = tt
many-Below m (suc n) h = (λ e. omega arith, many-Below m n (omega arith))

many-Distinct : (n : ℕ) → Distinct HallPass.created_at (many n)
unfolding many
many-Distinct zero = tt
many-Distinct (suc n) = (many-Below n n (omega arith), many-Distinct n)

-- Thirty passes, on two pages
abbrev full_db : Db
full_db = record db { passes = many 30 }

two_pages : (list_hall_passes ilike order_desc all_rows full_db).total_pages ≡ 2
unfolding list_hall_passes many
two_pages = refl

distinct : Distinct HallPass.created_at (filter (filter_of ilike all_rows) full_db.passes)
unfolding hall_pass_filter many
distinct = many-Distinct 30

list_hall_passes_pages_example :
    Sorts
      (first_pages
        (λ page. (list_hall_passes ilike order_desc (at_page all_rows page) full_db).passes)
        (list_hall_passes ilike order_desc all_rows full_db).total_pages)
      (filter (filter_of ilike all_rows) full_db.passes)
list_hall_passes_pages_example =
    list_hall_passes_pages ilike all_rows full_db (λ page. order_desc) (λ page. order_desc-Orders)
      distinct

step-IsWellFormed_example : IsWellFormed (step upper (redeem (codes "HP-A") none 200) db).1
step-IsWellFormed_example =
    step-IsWellFormed upper (redeem (codes "HP-A") none 200) db db-IsWellFormed

new_tokens : (n : ℕ) → n < 2 → any (λ p. same p.token (token_of upper draws n)) db.passes ≡ false
unfolding same create_readable_token
new_tokens zero lt = refl
new_tokens (suc zero) lt = refl
new_tokens (suc (suc n)) lt = absurd (omega arith)

new_ids : (n : ℕ) → n < 2 → any (λ p. p.id == (draws n).id) db.passes ≡ false
new_ids zero lt = refl
new_ids (suc zero) lt = refl
new_ids (suc (suc n)) lt = absurd (omega arith)

other_tokens :
    (m n : ℕ) → m < n → n < 2 → same (token_of upper draws m) (token_of upper draws n) ≡ false
unfolding same create_readable_token
other_tokens zero (suc zero) h lt = refl
other_tokens m zero h lt = absurd (omega arith)
other_tokens (suc m) (suc zero) h lt = absurd (omega arith)
other_tokens m (suc (suc n)) h lt = absurd (omega arith)

draws-IsFresh : IsFresh upper draws db.passes 2
draws-IsFresh = record {
  new_tokens = new_tokens;
  new_ids = new_ids;
  other_tokens = other_tokens;
  other_ids = λ m n h lt. ground arith;
}

create_hall_passes_succeeds_example :
    (ps : List HallPass) × (length ps ≡ 2)
    × ((create_hall_passes upper 300 none admin draws (codes "Eve" ∷ codes "Bob" ∷ []) db).0
        ≡ returned ps)
create_hall_passes_succeeds_example =
    create_hall_passes_succeeds upper draws 300 none admin (codes "Eve" ∷ codes "Bob" ∷ []) db
      draws-IsFresh (unfold configured_limit in omega arith)

get_invite_from_stats-tallied_example :
    let stats = get_invite_from_stats ilike db in
    Distinct InviteFromStat.invite_from stats
    × (tallied (codes "Bride") stats
        ≡ count (λ p. same (inviter p) (codes "Bride")) (used_pass ∷ open_pass ∷ []))
get_invite_from_stats-tallied_example = get_invite_from_stats-tallied ilike (codes "Bride") db
