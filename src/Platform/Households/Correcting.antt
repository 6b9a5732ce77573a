-- ===== src/Platform/Households/Correcting.antt =====
-- The correction of an admission keeps the places of the events booked.
use save_the_date.Base.{
  suc, ◌≡◌, ◌≢◌, refl, sym, subst, ap, ◌∙◌, Bool, true, false, not, Option, none, some, List, [],
  ◌∷◌, map, ◌++◌, Text, codes, ◌>>◌, same, same→eq, any, filter, find?, All, Distinct, Bool-cases,
  inl, inr, if◌then◌else◌, pure, arith,
}
use save_the_date.Platform.Households.Release.{holds}
use save_the_date.Platform.Households.Places.{
  Places, places, seat, counting, Owes, Booked, Owes-drop, Owes-give_back,
}
use save_the_date.Platform.Households.Answering.{Ensures-event_row}
use save_the_date.Platform.Households.Managing.{Booked-one_more}
use save_the_date.Platform.Households.Ensuring.{
  Ensures, StaysBooked, Ensures-bind, Ensures-left, Ensures-after, Ensures-pure, Ensures-read,
  Ensures-if, Ensures-weak, Ensures-refuse, Ensures-update, StaysBooked-transaction, Leaves-needed,
}
use save_the_date.Platform.Households.Aside.{Leaves-owner_only, Leaves-operation}
use save_the_date.Platform.Admission.Model.{
  Event, Reservation, Attendee, Answer, Ports, CorrectionInput, Corrected, to_confirmed,
  to_declined, corrected,
}
use save_the_date.Platform.Admission.Guards.{update, once, add_result}
use save_the_date.Platform.Admission.Correct.{
  correct_name, rename, reserved_by, set_count, release, reserve, count_down, correct_declined,
  is_full, confirm_anew, correct_confirmed, set_state, correct_state, add_correction, correct_once,
  input_body, correct,
}
use save_the_date.Platform.Admission.Leaves.{
  Leaves, Leaves-update, Leaves-query, Leaves-pure, Leaves-if, Leaves-refuse,
}

holds-seat : (a id : Text) (s : Reservation) → holds a id s ≡ true → seat s ≡ (a, id)
unfolding holds
holds-seat a id s h =
    cc (same→eq s.attendee_id a (ground (arith, h)), same→eq s.event_id id (ground (arith, h)))

none_left :
    (a id : Text) (s : Reservation) (rs : List Reservation)
    → holds a id s ≡ true
    → All (λ r. seat s ≢ seat r) rs
    → map Reservation.event_id (filter (holds a id) rs) ≡ []
none_left a id s [] h ne = refl
none_left a id s (r ∷ rs) h ne = elim (Bool-cases (holds a id r)) [
  | inl hit ↦ absurd (ne.0 (holds-seat a id s h ∙ sym (holds-seat a id r hit)))
  | inr miss ↦ rw miss (none_left a id s rs h ne.1)
]

-- One attendee has at most one place at an event.
one_seat :
    (a id : Text) (rs : List Reservation)
    → Distinct seat rs
    → map Reservation.event_id (filter (holds a id) rs)
      ≡ (if any (holds a id) rs then id ∷ [] else [])
one_seat a id [] d = refl
one_seat a id (r ∷ rs) d = elim (Bool-cases (holds a id r)) [
  | inl hit ↦
      let on : r.event_id ≡ id = ap (λ x. x.1) (holds-seat a id r hit) in
      rw hit (rw (none_left a id r rs hit d.0) (rw on))
  | inr miss ↦ rw miss (one_seat a id rs d.1)
]

module _ (i : CorrectionInput) where
  Ensures-count_down : (e : Event) → Ensures (Owes (i.event_id ∷ [])) (count_down i e) (λ u. Booked)
  unfolding count_down set_count
  Ensures-count_down e =
      Ensures-after (Leaves-refuse _ _)
        λ u. Ensures-update _ λ db o. Owes-give_back i.event_id [] (places db) o

  Ensures-correct_declined : (e : Event) → Ensures Booked (correct_declined i e) (λ u. Booked)
  unfolding correct_declined release holds reserved_by
  Ensures-correct_declined e =
      Ensures-bind _ (Ensures-read (λ v. any (reserved_by i) v.1)) λ released.
        Ensures-bind (λ u. Owes (if released then i.event_id ∷ [] else []))
          (Ensures-update _ λ db (b, read). owed (places db) b released read)
          λ u. Ensures-paid e released
    where
      owed :
          (v : Places)
          → Booked v
          → (released : Bool) → released ≡ any (reserved_by i) v.1
          → Owes
              (if released then i.event_id ∷ [] else [])
              (v.0, filter (λ s. not (reserved_by i s)) v.1)
      owed v b released read =
          subst (λ ds. Owes ds (v.0, filter (λ s. not (reserved_by i s)) v.1))
            (one_seat i.attendee_id i.event_id v.1 b.1
              ∙ ap (λ (x : Bool). if x then i.event_id ∷ [] else []) (sym read))
            (Owes-drop (λ e. e) (reserved_by i) v b)

      Ensures-paid :
          (e : Event) (released : Bool)
          → Ensures
              (Owes (if released then i.event_id ∷ [] else []))
              (if released then count_down i e else pure tt)
              (λ u. Booked)
      Ensures-paid e true = Ensures-count_down e
      Ensures-paid e false = Ensures-pure tt λ v b. b

  -- The event that the correction read
  abbrev Read : Event → Places → Type 0
  Read e v = Booked v × (find? (λ (f : Event). same f.id e.id) v.0 ≡ some e) × (e.id ≡ i.event_id)

  Ensures-confirm_anew :
      (e : Event)
      → Ensures (λ v. Read e v × (any (reserved_by i) v.1 ≡ false)) (confirm_anew i e) (λ u. Booked)
  unfolding confirm_anew reserve set_count holds reserved_by
  Ensures-confirm_anew e = Ensures-bind _ (Ensures-refuse (is_full e) _) λ u.
      Ensures-bind (λ u v. Booked (counting i.event_id suc v.0, v.1))
        (Ensures-update _ λ db (((b, found, of_id), fresh), room).
          Booked-one_more i.attendee_id e i.event_id (places db) b found of_id room fresh)
        λ u. Ensures-update _ λ db b. b

  Ensures-correct_confirmed : (e : Event) → Ensures (Read e) (correct_confirmed i e) (λ u. Booked)
  unfolding correct_confirmed
  Ensures-correct_confirmed e =
      Ensures-bind _ (Ensures-read (λ v. any (reserved_by i) v.1)) λ has_place.
        Ensures-if has_place (pure tt) (confirm_anew i e) (λ h. Ensures-pure tt λ v (r, read). r.0)
          λ free. Ensures-weak (λ v (r, read). (r, sym read ∙ free)) (Ensures-confirm_anew e)

  Ensures-correct_state :
      (e : Event) (o : Option Corrected) → Ensures (Read e) (correct_state i e o) (λ u. Booked)
  unfolding correct_state set_state
  Ensures-correct_state e none = Ensures-pure tt λ v r. r.0
  Ensures-correct_state e (some to_declined) =
      Ensures-weak (λ v r. r.0)
        (Ensures-bind (λ u. Booked) (Ensures-correct_declined e)
          λ u. Ensures-left (Leaves-update _ (λ db. refl)))
  Ensures-correct_state e (some to_confirmed) =
      Ensures-bind (λ u. Booked) (Ensures-correct_confirmed e)
        λ u. Ensures-left (Leaves-update _ (λ db. refl))

  Leaves-correct_name : Leaves places (correct_name i)
  unfolding correct_name rename
  Leaves-correct_name = Leaves-if _ (Leaves-pure tt) (Leaves-update _ (λ db. refl))

  Ensures-correct_once :
      (actor : Text) (a : Attendee) (e : Event)
      → Ensures (Read e) (correct_once actor i a e) (λ u. Booked)
  unfolding correct_once add_correction
  Ensures-correct_once actor a e = Ensures-after (Leaves-query _) λ was_admitted.
      Ensures-after (Leaves-refuse _ _) λ u. Ensures-after (Leaves-query _) λ r.
        Ensures-after Leaves-correct_name λ u.
          Ensures-bind (λ u. Booked) (Ensures-correct_state e i.state)
            λ u. Ensures-left (Leaves-update _ (λ db. refl))

-- `correction` keeps the places booked, whatever its outcome.
pub StaysBooked-correct :
    (ports : Ports) (actor : Text) (i : CorrectionInput) (key : Text)
    → StaysBooked (correct ports actor i key)
unfolding correct add_result once
StaysBooked-correct ports actor i key = StaysBooked-transaction (
    Ensures-after (Leaves-owner_only actor) λ u. Ensures-after (Leaves-query _) λ row.
      Ensures-after (Leaves-needed _ row) λ a.
        Ensures-bind (Read i) (Ensures-event_row i.event_id) λ e.
          Ensures-after (Leaves-operation ports _ _ _ _) λ previous. Ensures-again a e previous)
  where
    Ensures-again :
        (a : Attendee) (e : Event) (previous : Option Answer)
        → Ensures
            (Read i e)
            (once previous (do
              correct_once actor i a e
              update (
                  add_result ports actor
                    (codes "admission-correction:" ++ i.event_id)
                    key
                    (input_body i)
                    corrected)
              pure corrected))
            (λ u. Booked)
    Ensures-again a e none =
        Ensures-bind (λ u. Booked) (Ensures-correct_once i actor a e)
          λ u. Ensures-after (Leaves-update _ (λ db. refl)) λ u. Ensures-pure corrected λ v b. b
    Ensures-again a e (some answer) = Ensures-pure answer λ v r. r.0
