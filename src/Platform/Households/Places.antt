-- ===== src/Platform/Households/Places.antt =====
-- The places of the events: the count that an event has of its confirmed attendees, and the
-- reservations. What releasing and taking places does to them.
use save_the_date.Base.{
  ℕ, suc, ◌+◌, ◌-◌, ◌≤◌, ◌≡◌, ◌≢◌, refl, Bool, true, false, not, Option, none, some, List, [], ◌∷◌,
  map, Text, same, count, filter, update_where, length, All, All-filter, All-imp, Distinct,
  Distinct-update_where, Bool-cases, inl, inr, if◌then◌else◌, arith,
}
use save_the_date.Platform.Admission.Model.{Db, Event, Reservation}

abbrev pub Places : Type 0
Places = List Event × List Reservation

abbrev pub places : Db → Places
places db = (db.events, db.reservations)

abbrev pub seat : Reservation → Text × Text
seat s = (s.attendee_id, s.event_id)

abbrev pub at_event : Text → Reservation → Bool
at_event id s = same id s.event_id

-- The count is at most the capacity, where there is one.
abbrev pub Within : Option ℕ → ℕ → Type 0
Within none n = Unit
Within (some c) n = n ≤ c

-- The count of an event is that of its reservations and of the places `owed` that were released and
-- not yet counted, and is within the capacity.
abbrev pub IsCounted : List Text → List Reservation → Event → Type 0
IsCounted owed rs e =
    (e.confirmed_count ≡ count (at_event e.id) rs + count (same e.id) owed)
    × Within e.capacity e.confirmed_count

-- `set confirmed_count = …` in the row of an event
abbrev pub counted : Text → (ℕ → ℕ) → Event → Event
counted id f e = if same e.id id then record e { confirmed_count = f e.confirmed_count } else e

-- The rows are counted once their counts are changed as given.
abbrev pub OwesWith : (Event → Event) → List Text → Places → Type 0
OwesWith g owed (es, rs) =
    Distinct Event.id es × Distinct seat rs × All (λ e. IsCounted owed rs (g e)) es

abbrev pub Owes : List Text → Places → Type 0
Owes = OwesWith (λ e. e)

-- Ids of events do not repeat, no attendee has two places at an event, and every event has the
-- count of its reservations, which is within its capacity.
abbrev pub Booked : Places → Type 0
Booked = Owes []

abbrev pub counting : Text → (ℕ → ℕ) → List Event → List Event
counting id f es =
    update_where (λ (e : Event). same e.id id)
      (λ e. record e { confirmed_count = f e.confirmed_count }) es

All-counting :
    (Q : Event → Type 0) (id : Text) (f : ℕ → ℕ) (es : List Event)
    → All (λ e. Q (counted id f e)) es
    → All Q (counting id f es)
All-counting Q id f [] h = tt
All-counting Q id f (e ∷ es) h = (h.0, All-counting Q id f es h.1)

-- What is counted in the rows is written.
pub Owes-counting :
    (id : Text) (f : ℕ → ℕ) (owed : List Text) (v : Places)
    → OwesWith (counted id f) owed v
    → Owes owed (counting id f v.0, v.1)
Owes-counting id f owed (es, rs) (d, s, c) = (
  Distinct-update_where Event.id _ _ (λ e. refl) es d,
  s,
  All-counting (IsCounted owed rs) id f es c,
)

Distinct-filter :
    (p : Reservation → Bool) (rs : List Reservation)
    → Distinct seat rs
    → Distinct seat (filter p rs)
Distinct-filter p [] d = tt
Distinct-filter p (r ∷ rs) d = elim (Bool-cases (p r)) [
  | inl kept ↦ rw kept (All-filter (λ s. seat r ≢ seat s) p rs d.0, Distinct-filter p rs d.1)
  | inr gone ↦ rw gone (Distinct-filter p rs d.1)
]

-- The reservations of an event are those that a test drops and those that it leaves.
count-dropped :
    (id : Text) (p : Reservation → Bool) (rs : List Reservation)
    → count (at_event id) rs
      ≡ count (at_event id) (filter (λ s. not (p s)) rs)
        + count (same id) (map Reservation.event_id (filter p rs))
count-dropped id p [] = refl
count-dropped id p (r ∷ rs) = ground (arith, count-dropped id p rs)

-- What is dropped is owed.
pub Owes-drop :
    (g : Event → Event) (p : Reservation → Bool) (v : Places)
    → OwesWith g [] v
    → OwesWith g (map Reservation.event_id (filter p v.1)) (v.0, filter (λ s. not (p s)) v.1)
Owes-drop g p (es, rs) (d, s, c) = (
  d,
  Distinct-filter (λ r. not (p r)) rs s,
  All-imp es (λ e (n, fits). (omega (arith, n, count-dropped (g e).id p rs), fits)) c,
)

Within-le : (c : Option ℕ) (m n : ℕ) → m ≤ n → Within c n → Within c m
Within-le none m n h k = tt
Within-le (some c) m n h k = omega arith

give_back_row :
    (id : Text) (owed : List Text) (rs : List Reservation) (e : Event)
    → IsCounted (id ∷ owed) rs e
    → IsCounted owed rs (counted id (λ n. n - 1) e)
give_back_row id owed rs e (n, fits) = elim (Bool-cases (same e.id id)) [
  | inl hit ↦
      let owes : e.confirmed_count ≡ suc (count (at_event e.id) rs + count (same e.id) owed) =
        ground (arith, n) in
      let less : e.confirmed_count - 1 ≤ e.confirmed_count = omega arith in
      rw hit (omega arith, Within-le e.capacity (e.confirmed_count - 1) e.confirmed_count less fits)
  | inr miss ↦ rw miss (ground (arith, n), fits)
]

-- One place that is owed is counted.
pub Owes-give_back :
    (id : Text) (owed : List Text) (v : Places)
    → Owes (id ∷ owed) v
    → Owes owed (counting id (λ n. n - 1) v.0, v.1)
Owes-give_back id owed (es, rs) (d, s, c) =
    Owes-counting id (λ n. n - 1) owed (es, rs)
      (d, s, All-imp es (λ e. give_back_row id owed rs e) c)

count-others :
    (i id : Text) (owed : List Text)
    → same i id ≡ false
    → All (λ x. x ≡ id) owed
    → count (same i) owed ≡ 0
count-others i id [] ne h = refl
count-others i id (x ∷ xs) ne h = rw h.0 (ground (arith, count-others i id xs ne h.1))

count-All :
    (i id : Text) (owed : List Text)
    → same i id ≡ true
    → All (λ x. x ≡ id) owed
    → count (same i) owed ≡ length owed
count-All i id [] eq h = refl
count-All i id (x ∷ xs) eq h = rw h.0 (ground (arith, count-All i id xs eq h.1))

pay_row :
    (id : Text) (m n : ℕ) (owed : List Text) (rs : List Reservation) (e : Event)
    → All (λ x. x ≡ id) owed
    → m + length owed ≡ n
    → IsCounted owed rs (counted id (λ k. n) e)
    → IsCounted [] rs (counted id (λ k. m) e)
pay_row id m n owed rs e alike paid h = elim (Bool-cases (same e.id id)) [
  | inl hit ↦
      let (is, fits) : (n ≡ count (at_event e.id) rs + count (same e.id) owed)
          × Within e.capacity n =
        rw hit at h in
      let less : m ≤ n = omega arith in
      rw hit
        (omega (arith, is, count-All e.id id owed hit alike), Within-le e.capacity m n less fits)
  | inr miss ↦
      let (is, fits) : IsCounted owed rs e = rw miss at h in
      rw miss (omega (arith, is, count-others e.id id owed miss alike), fits)
]

-- What is owed of one event is counted at once.
pub Owes-pay :
    (id : Text) (m n : ℕ) (owed : List Text) (v : Places)
    → All (λ x. x ≡ id) owed
    → m + length owed ≡ n
    → OwesWith (counted id (λ k. n)) owed v
    → OwesWith (counted id (λ k. m)) [] v
Owes-pay id m n owed (es, rs) alike paid (d, s, c) =
    (d, s, All-imp es (λ e. pay_row id m n owed rs e alike paid) c)
