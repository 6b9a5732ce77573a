-- ===== src/Platform/Households/Counting.antt =====
-- How the two loops of `submit` count the places of the event: between them and the rows stands the
-- count that is written at the end.
use save_the_date.Base.{
  ℕ, suc, ◌+◌, ◌-◌, ◌≤◌, ◌≡◌, sym, subst, ◌∙◌, true, false, not, Option, none, some, List, [], ◌∷◌,
  map, Text, same, same→eq, same_refl, any, count, filter, find?, length, length-map, length-filter,
  All, All-imp, find?-All, arith,
}
use save_the_date.Platform.Admission.Model.{Event, Reservation}
use save_the_date.Platform.Households.Release.{Tally, holds}
use save_the_date.Platform.Households.Record.{is_reached}
use save_the_date.Platform.Households.Submit.{start_tally}
use save_the_date.Platform.Households.Places.{
  Places, at_event, Within, IsCounted, counted, counting, OwesWith, Booked, Owes-drop, Owes-pay,
  Owes-counting,
}
use save_the_date.Platform.Households.Taking.{find?-Only, Owes-start, Owes-take, Room, counted_hit}

abbrev pub total : Tally → ℕ
total t = t.initial + t.taken - t.released

-- With the count `total t` in the row of the event, the places would be booked.
abbrev pub Counting : Event → Tally → Places → Type 0
Counting e t v =
    OwesWith (counted e.id (λ k. total t)) [] v
    × (find? (λ f. same f.id e.id) v.0 ≡ some e)
    × (t.released ≤ t.initial + t.taken)

pub Counting-start :
    (e : Event) (v : Places)
    → Booked v
    → find? (λ f. same f.id e.id) v.0 ≡ some e
    → Counting e (start_tally e) v
unfolding start_tally
Counting-start e v b found =
    let as_read : e.confirmed_count ≡ total (start_tally e) = omega arith in
    (
      subst (λ n. OwesWith (counted e.id (λ k. n)) [] v) as_read
          (Owes-start e.id e v (find?-Only e.id e v.0 b.0 found) b),
      found,
      omega arith,
    )

pub alike :
    (a id : Text) (rs : List Reservation)
    → All (λ x. x ≡ id) (map Reservation.event_id (filter (holds a id) rs))
unfolding holds
alike a id [] = tt
alike a id (r ∷ rs) = ground (arith, same→eq r.event_id id, alike a id rs)

at_of : (a id : Text) (r : Reservation) → holds a id r ≡ true → same id r.event_id ≡ true
unfolding holds
at_of a id r h =
    let on : r.event_id ≡ id = same→eq r.event_id id (ground (arith, h)) in
    subst (λ x. same id x ≡ true) (sym on) (same_refl id)

count-holds-le :
    (a id : Text) (rs : List Reservation) → count (holds a id) rs ≤ count (at_event id) rs
count-holds-le a id [] = omega arith
count-holds-le a id (r ∷ rs) = ground (arith, at_of a id r, count-holds-le a id rs)

counted_total :
    (e : Event) (t : Tally) (v : Places) → Counting e t v → total t ≡ count (at_event e.id) v.1
counted_total e t (es, rs) ((d, s, c), found, within) =
    let (row, hit) =
      find?-All (λ f. IsCounted [] rs (counted e.id (λ k. total t) f)) (λ f. same f.id e.id) es e c
        found in
    let as_counted = subst (IsCounted [] rs) (counted_hit e.id (λ k. total t) e hit) row in
    omega (arith, as_counted.0)

-- Releasing a place
pub Counting-release :
    (e : Event) (t : Tally) (a : Text) (v : Places)
    → Counting e t v
    → Counting e
        (record t { released = t.released + count (holds a e.id) v.1 })
        (v.0, filter (λ s. not (holds a e.id s)) v.1)
Counting-release e t a (es, rs) (b, found, within) =
    let gone : ℕ = count (holds a e.id) rs in
    let enough : gone ≤ total t =
      omega (arith, counted_total e t (es, rs) (b, found, within), count-holds-le a e.id rs) in
    let as_many : length (map Reservation.event_id (filter (holds a e.id) rs)) ≡ gone =
      length-map Reservation.event_id (filter (holds a e.id) rs)
      ∙ length-filter (holds a e.id) rs in
    let t' : Tally = record t { released = t.released + gone } in
    let paid : total t' + length (map Reservation.event_id (filter (holds a e.id) rs)) ≡ total t =
      omega (arith, as_many, enough) in
    (
      Owes-pay e.id (total t') (total t) (map Reservation.event_id (filter (holds a e.id) rs))
          (es, filter (λ s. not (holds a e.id s)) rs) (alike a e.id rs) paid
          (Owes-drop (counted e.id (λ k. total t)) (holds a e.id) (es, rs) b),
      found,
      omega (arith, enough, within),
    )

Room-row :
    (e f : Event) (t : Tally)
    → is_reached e.capacity t ≡ false
    → t.released ≤ t.initial + t.taken
    → (same f.id e.id ≡ true → f ≡ e)
    → Room e.id (λ k. total t) (λ k. total (record t { taken = suc t.taken })) f
unfolding is_reached
Room-row e f t room within only = λ hit. (
  omega (arith, within),
  subst (λ g. Within g.capacity (total (record t { taken = suc t.taken }))) (sym (only hit))
      (below e.capacity room),
)
  where
    below :
        (c : Option ℕ)
        → is_reached c t ≡ false
        → Within c (total (record t { taken = suc t.taken }))
    below none h = tt
    below (some n) h = ground arith

-- Taking a place below the capacity
pub Counting-take :
    (e : Event) (t : Tally) (a : Text) (v : Places)
    → any (holds a e.id) v.1 ≡ false
    → is_reached e.capacity t ≡ false
    → Counting e t v
    → Counting e
        (record t { taken = suc t.taken })
        (v.0, record { attendee_id = a; event_id = e.id } ∷ v.1)
Counting-take e t a (es, rs) fresh room (b, found, within) = (
  Owes-take a e.id (λ k. total t) (λ k. total (record t { taken = suc t.taken })) (es, rs) fresh
      (All-imp es (λ f only. Room-row e f t room within only) (find?-Only e.id e es b.0 found)) b,
  found,
  omega (arith, within),
)

-- Writing the count
pub Counting-write :
    (e : Event) (t : Tally) (v : Places)
    → Counting e t v
    → Booked (counting e.id (λ k. total t) v.0, v.1)
Counting-write e t v (b, found, within) = Owes-counting e.id (λ k. total t) [] v b
