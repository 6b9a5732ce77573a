-- ===== src/Platform/Households/Managing.antt =====
-- What the couple does about the answers and the admissions keeps the places of the events booked.
use save_the_date.Base.{
  ℕ, suc, ◌≡◌, refl, sym, subst, Bool, true, false, Option, none, some, List, [], ◌∷◌, map, Text,
  same, any, filter, find?, All-imp, leb, arith,
}
use save_the_date.Platform.Capability.{edit}
use save_the_date.Platform.Households.Access.{add_audit}
use save_the_date.Platform.Households.Release.{holds, drop_reservations}
use save_the_date.Platform.Households.Record.{append_reservation, insert_reservation, queue}
use save_the_date.Platform.Households.Manage.{
  approvable, approve, give_back, give_back_all, remove_one, remove_all, erase, erase_all, remove,
  is_seat_of,
}
use save_the_date.Platform.Households.Places.{
  Places, places, Within, counting, Owes, Booked, Owes-drop, Owes-give_back, Owes-counting,
}
use save_the_date.Platform.Households.Taking.{Only, find?-Only, Owes-kept, Owes-take, Room}
use save_the_date.Platform.Households.Answering.{Ensures-event_row}
use save_the_date.Platform.Households.Ensuring.{
  Ensures, StaysBooked, Ensures-bind, Ensures-left, Ensures-after, Ensures-pure, Ensures-read,
  Ensures-refuse, Ensures-update, StaysBooked-transaction, Leaves-needed,
}
use save_the_date.Platform.Households.Aside.{
  Leaves-owner_only, Leaves-require_tenant, Leaves-revoke_held, Leaves-throw,
}
use save_the_date.Platform.Admission.Model.{
  Event, Reservation, Rsvp, Ports, Circumstances, Writing, written, refused, unacknowledged,
}
use save_the_date.Platform.Admission.Correct.{is_full, set_count}
use save_the_date.Platform.Admission.Leaves.{
  Leaves, Leaves-bind, Leaves-update, Leaves-query, Leaves-pure, Leaves-refuse,
}

Room-below :
    (e f : Event) (id : Text)
    → is_full e ≡ false
    → (same f.id id ≡ true → f ≡ e)
    → Room id (λ n. n) suc f
unfolding is_full
Room-below e f id room only = λ hit.
    (refl, subst (λ g. Within g.capacity (suc g.confirmed_count)) (sym (only hit)) (below e room))
  where
    below : (e : Event) → is_full e ≡ false → Within e.capacity (suc e.confirmed_count)
    below e h = fits e.capacity h
      where
        fits :
            (c : Option ℕ)
            → (elim c as (λ x. Bool) [ none ↦ false | some n ↦ leb n e.confirmed_count ]) ≡ false
            → Within c (suc e.confirmed_count)
        fits none h = tt
        fits (some n) h = ground arith

-- One more place at an event that is not full
pub Booked-one_more :
    (a : Text) (e : Event) (id : Text) (v : Places)
    → Booked v
    → find? (λ (f : Event). same f.id e.id) v.0 ≡ some e
    → e.id ≡ id
    → is_full e ≡ false
    → any (holds a id) v.1 ≡ false
    → Booked (counting id suc v.0, record { attendee_id = a; event_id = id } ∷ v.1)
Booked-one_more a e id v b found of_id room fresh =
    let only : Only id e v.0 = subst (λ i. Only i e v.0) of_id (find?-Only e.id e v.0 b.0 found) in
    Owes-counting id suc [] (v.0, record { attendee_id = a; event_id = id } ∷ v.1)
      (Owes-take a id (λ n. n) suc v fresh (All-imp v.0 (λ f o. Room-below e f id room o) only)
        (Owes-kept id v b))

abbrev Read : Text → Event → Places → Type 0
Read id e v = Booked v × (find? (λ (f : Event). same f.id e.id) v.0 ≡ some e) × (e.id ≡ id)

Leaves-approvable : (version : ℕ) (o : Option Rsvp) → Leaves places (approvable version o)
unfolding approvable
Leaves-approvable version none = Leaves-throw _
Leaves-approvable version (some r) = Leaves-bind (Leaves-refuse _ _) λ u. Leaves-pure r

pub StaysBooked-approve :
    (ports : Ports) (actor event_id attendee_id : Text) (version : ℕ)
    → StaysBooked (approve ports actor event_id attendee_id version)
unfolding approve insert_reservation append_reservation set_count add_audit queue
StaysBooked-approve ports actor event_id a version = StaysBooked-transaction (
    Ensures-after (Leaves-owner_only actor) λ u.
      Ensures-bind (Read event_id) (Ensures-event_row event_id) λ e.
        Ensures-after (Leaves-query _) λ row. Ensures-after (Leaves-approvable version row) λ r.
          Ensures-bind (λ u v. Read event_id e v × (is_full e ≡ false))
            (Ensures-refuse (is_full e) _)
            λ u.
              Ensures-bind (λ u v. Booked (counting event_id suc v.0, v.1))
                (Ensures-bind _ (Ensures-read (λ v. any (holds a event_id) v.1)) λ clash.
                  Ensures-bind _ (Ensures-refuse clash _) λ u.
                    Ensures-update _ λ db ((((b, found, of_id), room), read), fresh).
                      Booked-one_more a e event_id (places db) b found of_id room
                        (subst (λ x. x ≡ false) read fresh))
                λ u.
                  Ensures-bind (λ u. Booked) (Ensures-update _ λ db b. b)
                    λ u. Ensures-after (Leaves-update _ (λ db. refl)) λ u.
                      Ensures-after (Leaves-update _ (λ db. ground arith))
                        λ u. Ensures-left (Leaves-update _ (λ db. refl)))

Ensures-give_back :
    (id : Text) (owed : List Text) → Ensures (Owes (id ∷ owed)) (give_back id) (λ u. Owes owed)
unfolding give_back set_count
Ensures-give_back id owed = Ensures-after (Leaves-query _) λ broken.
    Ensures-after (Leaves-refuse _ _)
      λ u. Ensures-update _ λ db o. Owes-give_back id owed (places db) o

Ensures-give_back_all : (owed : List Text) → Ensures (Owes owed) (give_back_all owed) (λ u. Booked)
unfolding give_back_all
Ensures-give_back_all [] = Ensures-pure tt λ v b. b
Ensures-give_back_all (id ∷ owed) =
    Ensures-bind (λ u. Owes owed) (Ensures-give_back id owed) λ u. Ensures-give_back_all owed

Ensures-remove_one :
    (now : ℕ) (actor id : Text) → Ensures Booked (remove_one now actor id) (λ u. Booked)
unfolding remove_one drop_reservations
Ensures-remove_one now actor id = Ensures-after (Leaves-query _) λ admitted.
    Ensures-after (Leaves-refuse _ _) λ u.
      Ensures-bind _ (Ensures-read (λ v. map Reservation.event_id (filter (is_seat_of id) v.1)))
        λ freed.
          Ensures-bind (λ u. Owes freed)
            (Ensures-update _ λ db (b, read).
              subst (λ owed. Owes owed (places (drop_reservations (is_seat_of id) db))) (sym read)
                (Owes-drop (λ e. e) (is_seat_of id) (places db) b))
            λ u.
              Ensures-bind (λ u. Booked) (Ensures-give_back_all freed)
                λ u. Ensures-after (Leaves-update _ (λ db. refl)) λ u.
                  Ensures-after (Leaves-revoke_held _ _ _)
                    λ u. Ensures-left (Leaves-update _ (λ db. refl))

Ensures-remove_all :
    (now : ℕ) (actor : Text) (ids : List Text)
    → Ensures Booked (remove_all now actor ids) (λ u. Booked)
unfolding remove_all
Ensures-remove_all now actor [] = Ensures-pure tt λ v b. b
Ensures-remove_all now actor (id ∷ ids) =
    Ensures-bind (λ u. Booked) (Ensures-remove_one now actor id)
      λ u. Ensures-remove_all now actor ids

Leaves-erase : (how : Writing) (id : Text) → Leaves places (erase how id)
unfolding erase
Leaves-erase written id = record { leaves = λ w. refl }
Leaves-erase refused id = record { leaves = λ w. refl }
Leaves-erase unacknowledged id = record { leaves = λ w. refl }

Leaves-erase_all : (c : Circumstances) (ids : List Text) → Leaves places (erase_all c ids)
unfolding erase_all
Leaves-erase_all c [] = Leaves-pure tt
Leaves-erase_all c (id ∷ ids) =
    Leaves-bind (Leaves-erase (c.erasure_write id) id) λ u. Leaves-erase_all c ids

pub StaysBooked-remove :
    (c : Circumstances) (actor id : Text) (version : ℕ) → StaysBooked (remove c actor id version)
unfolding remove add_audit
StaysBooked-remove c actor id version = StaysBooked-transaction (
    Ensures-after (Leaves-require_tenant actor edit none) λ u. Ensures-after (Leaves-query _) λ row.
      Ensures-after (Leaves-needed _ row) λ a. Ensures-after (Leaves-refuse _ _) λ u.
        Ensures-after (Leaves-query _) λ related.
          Ensures-bind (λ u. Booked) (Ensures-remove_all c.now actor related)
            λ u.
              Ensures-after (Leaves-erase_all c related)
                λ u. Ensures-left (Leaves-update _ (λ db. refl)))
