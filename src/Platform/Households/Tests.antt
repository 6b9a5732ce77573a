-- ===== src/Platform/Households/Tests.antt =====
-- The households at the rows of the platform's tests, and a table of guests.
use save_the_date.Base.{
  ◌≡◌, refl, false, List, [], ◌∷◌, map, filter, Text, codes, returned, All, arith, same_refl,
  trim_start, is_space,
}
use save_the_date.Platform.Tests.Rows.{ports, at_time, world, evening}
use save_the_date.Platform.Households.{Choice, attending, declining, Response}
use save_the_date.Platform.Households.Places.{places, Booked}
use save_the_date.Platform.Households.Trace.{
  Request, submitting, approving, removing, on_passes, serve_all, serve_all-Booked,
}
use save_the_date.Platform.Csv.{
  csv_table, parse_csv, has_text, guarded, is_formula, starts_operator, is_operator,
}
use save_the_date.Platform.Csv.Tables.{parse_csv-csv_table}

abbrev response : Text → Choice → Text → Response
response attendee choice name = record {
  attendee_id = attendee;
  expected_version = 1;
  attendee_version = 1;
  choice = choice;
  name = name;
  meal = [];
  dietary = [];
  accessibility = [];
  note = [];
}

abbrev ada_declines : Request
ada_declines =
    submitting (at_time 1000 (codes "m1")) (codes "hs1" ∷ []) (codes "e1")
      (response (codes "a1") declining (codes "Ada")
        ∷ response (codes "a2") attending (codes "Bob")
        ∷ [])
      (codes "r1")

-- Ada declines, Bob is removed, and Ada is approved, before the passes of the evening.
abbrev season : List Request
season =
    ada_declines
    ∷ removing (at_time 2000 (codes "m2")) (codes "own") (codes "a2") 1
    ∷ approving (codes "own") (codes "e1") (codes "a1") 2
    ∷ map on_passes evening

world-Booked : Booked (places world.db)
world-Booked = ground (arith, same_refl (codes "e1"))

serve_all-Booked_example : Booked (places (serve_all ports season world).db)
serve_all-Booked_example = serve_all-Booked ports season world world-Booked

abbrev fields : List Text
fields = codes "name" ∷ codes "note" ∷ []

abbrev guests : List (List Text)
guests = (codes "Ada, \"A\"" ∷ codes "=SUM(1)" ∷ []) ∷ ([] ∷ [] ∷ []) ∷ []

parse_csv-csv_table_example :
    (parse_csv (csv_table fields guests)
      ≡ returned (fields ∷ filter has_text (map (map guarded) guests)))
    × All (All (λ c. is_formula c ≡ false)) (filter has_text (map (map guarded) guests))
unfolding guarded is_formula starts_operator is_operator trim_start is_space
parse_csv-csv_table_example =
    parse_csv-csv_table fields guests
      ((refl, (refl, (refl, (refl, tt)))), ((refl, (refl, (refl, (refl, tt)))), tt)) refl
