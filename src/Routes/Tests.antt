-- ===== src/Routes/Tests.antt =====
-- The handlers at concrete requests.
use save_the_date.Base.{◌≡◌, refl, true, Option, none, some, [], ◌∷◌, Text, codes, returned}
use save_the_date.Auth.Session.{AuthSession, bouncer, can_access_role}
use save_the_date.HallPasses.Listing.Insertion.{order_desc}
use save_the_date.HallPasses.Tests.{upper, ilike, db, draws}
use save_the_date.Mail.Tests.{provider}
use save_the_date.Routes.Guard.{absent, row, unauthorized, frozen}
use save_the_date.Routes.Scan.{post_redeem}
use save_the_date.Routes.Scan.Laws.{Answered, post_redeem-Answered}
use save_the_date.Routes.Administer.{EmailBody}
use save_the_date.Routes.Issue.{CreateBody}
use save_the_date.Routes.Refusals.{
  Outside, invalidate, redeem, on_passes, handle, writes, handle-unauthorized, handle-frozen,
}

-- A scanned text is its own path and its own decoding here.
abbrev whole : Text → Option Text
whole s = some s

abbrev door : AuthSession
door = record { user_id = codes "u2"; email = codes "d@b.c"; role = bouncer; issued_at = 0 }

post_redeem-Answered_example :
    Answered whole whole upper 200 7 absent
      (some door)
      (some (codes "https/verify/HP-A"))
      db
      (post_redeem whole whole upper 200 7 absent (some door) (some (codes "https/verify/HP-A")) db)
post_redeem-Answered_example =
    post_redeem-Answered whole whole upper 200 7 absent (some door)
      (some (codes "https/verify/HP-A")) db

abbrev email_body : EmailBody
email_body = record { recipient_email = some (codes "g@b.c"); message = none }

abbrev create_body : CreateBody
create_body = record {
  guest_name = none;
  guest_names = some (some (codes " Eve ") ∷ none ∷ []);
  invite_from = some (codes "Groom");
  delivery =
      some (record { send_email = true; recipient_email = some (codes "g@b.c"); message = none });
}

abbrev outside : Outside
outside = record {
  ilike = ilike;
  order = order_desc;
  before = ilike;
  provider = provider;
  upper = upper;
  draws = draws;
  now = 200;
  fresh = 7;
  parse_url = whole;
  decode_uri = whole;
  sha1 = λ s. s;
  key_first = λ a b. true;
}

handle-unauthorized_example :
    handle outside absent (some door) (invalidate 11) db ≡ (returned unauthorized, db)
handle-unauthorized_example =
    handle-unauthorized outside absent (some door) db (on_passes (invalidate 11))
      (unfold can_access_role in refl)

handle-frozen_example :
    handle outside (row true) (some door) (redeem (some (codes "HP-A"))) db ≡ (returned frozen, db)
handle-frozen_example =
    handle-frozen outside (row true) (some door) db (redeem (some (codes "HP-A"))) refl
      (unfold can_access_role in refl) (unfold writes in refl)
