-- ===== src/Platform/Households/Taking.antt =====
-- Lemmas on the places of the events: the row that was read, and taking a place.
use save_the_date.Base.{
  ℕ, suc, ◌≡◌, ◌≢◌, sym, subst, ap, true, false, some, List, [], ◌∷◌, Text, same, same→eq,
  same_refl, any, count, find?, All, All-imp, All-both, Distinct, Bool-cases, inl, inr, arith,
}
use save_the_date.Platform.Admission.Model.{Event, Reservation}
use save_the_date.Platform.Households.Release.{holds}
use save_the_date.Platform.Households.Places.{
  Places, seat, at_event, Within, IsCounted, counted, OwesWith, Booked,
}

-- The row that was read is the only one of its id.
abbrev pub Only : Text → Event → List Event → Type 0
Only id e es = All (λ f. same f.id id ≡ true → f ≡ e) es

Only-rest :
    (id : Text) (e : Event) (es : List Event)
    → same e.id id ≡ true
    → All (λ f. e.id ≢ f.id) es
    → Only id e es
Only-rest id e [] h ne = tt
Only-rest id e (f ∷ es) h ne = (
  λ k. absurd (ne.0 (subst (λ i. i ≡ f.id) (sym (same→eq e.id id h)) (sym (same→eq f.id id k)))),
  Only-rest id e es h ne.1,
)

pub find?-Only :
    (id : Text) (e : Event) (es : List Event)
    → Distinct Event.id es
    → find? (λ f. same f.id id) es ≡ some e
    → Only id e es
find?-Only id e [] d h = tt
find?-Only id e (f ∷ es) d h = elim (Bool-cases (same f.id id)) [
  | inl hit ↦
      let found : f ≡ e = cc (rw hit at h) in
      let others : Only id f es = Only-rest id f es hit d.0 in
      (λ k. found, subst (λ x. Only id x es) found others)
  | inr miss ↦ (λ k. cc, find?-Only id e es d.1 (rw miss at h))
]

start_row :
    (id : Text) (e : Event) (rs : List Reservation) (f : Event)
    → (same f.id id ≡ true → f ≡ e)
    → IsCounted [] rs f
    → IsCounted [] rs (counted id (λ k. e.confirmed_count) f)
start_row id e rs f only h = elim (Bool-cases (same f.id id)) [
  | inl hit ↦
      let as_read : e.confirmed_count ≡ f.confirmed_count =
        ap Event.confirmed_count (sym (only hit)) in
      rw hit (rw as_read h)
  | inr miss ↦ rw miss h
]

-- The count that was read is the one in the row.
pub Owes-start :
    (id : Text) (e : Event) (v : Places)
    → Only id e v.0
    → Booked v
    → OwesWith (counted id (λ k. e.confirmed_count)) [] v
Owes-start id e (es, rs) only (d, s, c) = (
  d,
  s,
  All-imp es (λ f (o, h). start_row id e rs f o h)
      (All-both (λ f. same f.id id ≡ true → f ≡ e) (IsCounted [] rs) es only c),
)

seat-fresh :
    (a id : Text) (rs : List Reservation)
    → any (holds a id) rs ≡ false
    → All (λ s. (a, id) ≢ seat s) rs
unfolding holds
seat-fresh a id [] h = tt
seat-fresh a id (r ∷ rs) h = (
  λ e.
      let at : a ≡ r.attendee_id = ap (λ x. x.0) e in
      let on : id ≡ r.event_id = ap (λ x. x.1) e in
      let taken : holds a id r ≡ true =
        unfold holds in rw (← at) (rw (← on) (ground (arith, same_refl a, same_refl id))) in
      ground (arith, taken),
  seat-fresh a id rs (ground arith),
)

-- What taking a place does to the count, where there is one to take
abbrev pub Room : Text → (ℕ → ℕ) → (ℕ → ℕ) → Event → Type 0
Room id f g e =
    same e.id id ≡ true
    → (g e.confirmed_count ≡ suc (f e.confirmed_count)) × Within e.capacity (g e.confirmed_count)

pub counted_hit :
    (id : Text) (f : ℕ → ℕ) (e : Event)
    → same e.id id ≡ true
    → counted id f e ≡ record e { confirmed_count = f e.confirmed_count }
counted_hit id f e hit = rw hit

counted_miss : (id : Text) (f : ℕ → ℕ) (e : Event) → same e.id id ≡ false → counted id f e ≡ e
counted_miss id f e miss = rw miss

take_row :
    (a id : Text) (f g : ℕ → ℕ) (rs : List Reservation) (e : Event)
    → Room id f g e
    → IsCounted [] rs (counted id f e)
    → IsCounted [] (record { attendee_id = a; event_id = id } ∷ rs) (counted id g e)
take_row a id f g rs e room h = elim (Bool-cases (same e.id id)) [
  | inl hit ↦
      let before = subst (IsCounted [] rs) (counted_hit id f e hit) h in
      let one_more : count (at_event e.id) (record { attendee_id = a; event_id = id } ∷ rs)
          ≡ suc (count (at_event e.id) rs) =
        rw hit in
      subst (IsCounted [] (record { attendee_id = a; event_id = id } ∷ rs))
        (sym (counted_hit id g e hit))
        (omega (arith, (room hit).0, before.0, one_more), (room hit).1)
  | inr miss ↦
      let before = subst (IsCounted [] rs) (counted_miss id f e miss) h in
      let as_many : count (at_event e.id) (record { attendee_id = a; event_id = id } ∷ rs)
          ≡ count (at_event e.id) rs =
        rw miss in
      subst (IsCounted [] (record { attendee_id = a; event_id = id } ∷ rs))
        (sym (counted_miss id g e miss)) (omega (arith, before.0, as_many), before.1)
]

pub Owes-take :
    (a id : Text) (f g : ℕ → ℕ) (v : Places)
    → any (holds a id) v.1 ≡ false
    → All (Room id f g) v.0
    → OwesWith (counted id f) [] v
    → OwesWith (counted id g) [] (v.0, record { attendee_id = a; event_id = id } ∷ v.1)
Owes-take a id f g (es, rs) fresh room (d, s, c) = (
  d,
  (seat-fresh a id rs fresh, s),
  All-imp es (λ e (r, h). take_row a id f g rs e r h)
      (All-both (Room id f g) (λ e. IsCounted [] rs (counted id f e)) es room c),
)

kept_row :
    (id : Text) (rs : List Reservation) (e : Event)
    → IsCounted [] rs e
    → IsCounted [] rs (counted id (λ n. n) e)
kept_row id rs e h = elim (Bool-cases (same e.id id)) [ inl hit ↦ rw hit h | inr miss ↦ rw miss h ]

pub Owes-kept : (id : Text) (v : Places) → Booked v → OwesWith (counted id (λ n. n)) [] v
Owes-kept id (es, rs) (d, s, c) = (d, s, All-imp es (kept_row id rs) c)
