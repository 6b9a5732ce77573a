-- ===== src/Platform/Households/Answering.antt =====
-- The operations of a household and of the couple keep the places of the events booked.
use save_the_date.Base.{
  suc, ◌+◌, ◌≡◌, refl, sym, subst, ◌∙◌, Bool, true, false, Option, none, some, List, [], ◌∷◌, Text,
  same, same→eq, any, count, find?, find?-All, All-Unit, if◌then◌else◌, pure,
}
use save_the_date.Platform.Households.{pending, declined, waitlisted, Questions, Response}
use save_the_date.Platform.Households.Access.{Guest, add_audit}
use save_the_date.Platform.Households.Release.{
  Tally, is_declining, holds, drop_reservations, release_place, release_one, release_all,
}
use save_the_date.Platform.Households.Record.{
  append_reservation, insert_reservation, is_reached, take_place, attend, place, record_one,
  record_all,
}
use save_the_date.Platform.Households.Submit.{
  start_tally, write_count, answer_all, answer_once, submit,
}
use save_the_date.Platform.Households.Places.{Places, places, Booked}
use save_the_date.Platform.Households.Counting.{
  Counting, Counting-start, Counting-release, Counting-take, Counting-write,
}
use save_the_date.Platform.Households.Ensuring.{
  Ensures, StaysBooked, Ensures-bind, Ensures-after, Ensures-pure, Ensures-read, Ensures-if,
  Ensures-post, Ensures-weak, Ensures-needed, Ensures-refuse, Ensures-update,
  StaysBooked-transaction,
}
use save_the_date.Platform.Households.Aside.{
  Leaves-authenticate, Leaves-operation, Leaves-send_mails, Leaves-queue_issue, Leaves-attendee_for,
  Leaves-revoke_held, Leaves-upsert_answer, Leaves-rename_attendee,
}
use save_the_date.Platform.Admission.Model.{Event, Attendee, Rsvp, Answer, Ports, Circumstances}
use save_the_date.Platform.Admission.Guards.{once, event_row, add_result}
use save_the_date.Platform.Admission.Correct.{set_count}
use save_the_date.Platform.Admission.Leaves.{Leaves-update, Leaves-query, Leaves-refuse}

Ensures-release_place :
    (e : Event) (a : Text) (t : Tally)
    → Ensures (Counting e t) (release_place e.id a t) (Counting e)
unfolding release_place drop_reservations
Ensures-release_place e a t = Ensures-bind _ (Ensures-read (λ v. count (holds a e.id) v.1)) λ gone.
    Ensures-bind (λ u. Counting e (record t { released = t.released + gone }))
      (Ensures-update _ λ db (c, read).
        subst
          (λ n.
            Counting e (record t { released = t.released + n })
              (places (drop_reservations (holds a e.id) db)))
          (sym read) (Counting-release e t a (places db) c))
      λ u. Ensures-after (Leaves-revoke_held _ _ _) λ u. Ensures-pure _ λ v c. c

module _ (e : Event) (attendees : List Attendee) (previous : List Rsvp) where
  Ensures-release_one :
      (r : Response) (t : Tally)
      → Ensures (Counting e t) (release_one e.id attendees previous r t) (Counting e)
  unfolding release_one
  Ensures-release_one r t = Ensures-after (Leaves-attendee_for _ _) λ a.
      Ensures-after (Leaves-refuse _ _) λ u. Ensures-after (Leaves-query _) λ admitted.
        Ensures-after (Leaves-refuse _ _) λ u. Ensures-after (Leaves-refuse _ _) λ u.
          Ensures-if (is_declining r.choice) (release_place e.id a.id t) (pure t)
            (λ h. Ensures-release_place e a.id t) λ h. Ensures-pure t λ v c. c

  Ensures-release_all :
      (rs : List Response) (t : Tally)
      → Ensures (Counting e t) (release_all e.id attendees previous rs t) (Counting e)
  unfolding release_all
  Ensures-release_all [] t = Ensures-pure t λ v c. c
  Ensures-release_all (r ∷ rs) t =
      Ensures-bind (Counting e) (Ensures-release_one r t) λ t'. Ensures-release_all rs t'

Ensures-take_place :
    (e : Event) (a : Text) (t : Tally)
    → is_reached e.capacity t ≡ false
    → Ensures (Counting e t) (take_place a e.id t) (λ p. Counting e p.1)
unfolding take_place insert_reservation append_reservation
Ensures-take_place e a t room =
    Ensures-bind (λ u. Counting e (record t { taken = suc t.taken }))
      (Ensures-bind _ (Ensures-read (λ v. any (holds a e.id) v.1)) λ clash.
        Ensures-bind _ (Ensures-refuse clash _) λ u. Ensures-update _ λ db ((c, read), fresh).
          Counting-take e t a (places db) (subst (λ b. b ≡ false) read fresh) room c)
      λ u. Ensures-pure _ λ v c. c

Ensures-attend :
    (e : Event) (a : Text) (reserved : Bool) (t : Tally)
    → Ensures (Counting e t) (attend e a reserved t) (λ p. Counting e p.1)
unfolding attend
Ensures-attend e a true t = Ensures-pure _ λ v c. c
Ensures-attend e a false t =
    Ensures-if e.manual_approval (pure (pending, t))
      (if is_reached e.capacity t then pure (waitlisted, t) else take_place a e.id t)
      (λ h. Ensures-pure (pending, t) λ v c. c)
      λ h.
        Ensures-if (is_reached e.capacity t) (pure (waitlisted, t)) (take_place a e.id t)
          (λ h. Ensures-pure (waitlisted, t) λ v c. c) λ room. Ensures-take_place e a t room

Ensures-place :
    (e : Event) (a : Text) (r : Response) (t : Tally)
    → Ensures (Counting e t) (place e a r t) (λ p. Counting e p.1)
unfolding place
Ensures-place e a r t = Ensures-after (Leaves-query _) λ reserved.
    Ensures-if (is_declining r.choice) (pure (declined, t)) (attend e a reserved t)
      (λ h. Ensures-pure (declined, t) λ v c. c) λ h. Ensures-attend e a reserved t

module _ (ports : Ports) (e : Event) (asked : Questions) (attendees : List Attendee)
    (previous : List Rsvp) where
  Ensures-record_one :
      (r : Response) (t : Tally)
      → Ensures
          (Counting e t)
          (record_one ports e asked attendees previous r t)
          (λ x. Counting e x.1)
  unfolding record_one
  Ensures-record_one r t = Ensures-after (Leaves-attendee_for _ _) λ a.
      Ensures-bind (λ p. Counting e p.1) (Ensures-place e a.id r t)
        λ placed. Ensures-after (Leaves-query _) λ old.
          Ensures-after (Leaves-upsert_answer _ _ _) λ version.
            Ensures-after (Leaves-rename_attendee a _) λ u.
              Ensures-after (Leaves-queue_issue ports e a.id _ _ _) λ u. Ensures-pure _ λ v c. c

  Ensures-record_all :
      (rs : List Response) (t : Tally)
      → Ensures
          (Counting e t)
          (record_all ports e asked attendees previous rs t)
          (λ x. Counting e x.1)
  unfolding record_all
  Ensures-record_all [] t = Ensures-pure _ λ v c. c
  Ensures-record_all (r ∷ rs) t =
      Ensures-bind (λ x. Counting e x.1) (Ensures-record_one r t)
        λ one.
          Ensures-bind (λ x. Counting e x.1) (Ensures-record_all rs one.1)
            λ rest. Ensures-pure _ λ v c. c

Ensures-write_count :
    (e : Event) (t : Tally) → Ensures (Counting e t) (write_count e.id t) (λ u. Booked)
unfolding write_count set_count
Ensures-write_count e t =
    Ensures-after (Leaves-refuse _ _) λ u. Ensures-update _ λ db c. Counting-write e t (places db) c

-- The row of the event was read, and its id is the one that was asked for.
pub Ensures-event_row :
    (id : Text)
    → Ensures Booked
        (event_row id)
        (λ e v. Booked v × (find? (λ f. same f.id e.id) v.0 ≡ some e) × (e.id ≡ id))
unfolding event_row
Ensures-event_row id =
    Ensures-bind _ (Ensures-read (λ v. find? (λ (f : Event). same f.id id) v.0)) λ row.
      Ensures-post (Ensures-needed _ row)
        λ e v ((b, read), found). as_found e v b (sym read ∙ found)
  where
    as_found :
        (e : Event) (v : Places)
        → Booked v
        → find? (λ (f : Event). same f.id id) v.0 ≡ some e
        → Booked v × (find? (λ f. same f.id e.id) v.0 ≡ some e) × (e.id ≡ id)
    as_found e v b found =
        let (u, hit) = find?-All (λ f. Unit {0}) (λ f. same f.id id) v.0 e (All-Unit v.0) found in
        let of_id : e.id ≡ id = same→eq e.id id hit in
        (b, subst (λ i. find? (λ (f : Event). same f.id i) v.0 ≡ some e) (sym of_id) found, of_id)

module _ (ports : Ports) (c : Circumstances) (g : Guest) (event_id : Text) (input : List Response)
    (key : Text) where
  Ensures-answer_all :
      (e : Event) (attendees : List Attendee) (previous : List Rsvp) (asked : Questions)
      → Ensures
          (Counting e (start_tally e))
          (answer_all ports c g event_id input key e attendees previous asked)
          (λ a. Booked)
  unfolding answer_all
  Ensures-answer_all e attendees previous asked =
      Ensures-bind (Counting e) (Ensures-release_all e attendees previous input _) λ t.
        Ensures-bind (λ x. Counting e x.1)
          (Ensures-record_all ports e asked attendees previous input t)
          λ rest.
            Ensures-bind (λ u. Booked) (Ensures-write_count e rest.1) λ u. Ensures-pure _ λ v b. b

  Ensures-answer_once : Ensures Booked (answer_once ports c g event_id input key) (λ a. Booked)
  unfolding answer_once add_result add_audit
  Ensures-answer_once = Ensures-bind _ (Ensures-event_row event_id) λ e.
      Ensures-weak (λ v (b, found, of_id). Counting-start e v b found)
        (Ensures-after (Leaves-query _) λ q. Ensures-after (Leaves-refuse _ _) λ u.
          Ensures-after (Leaves-query _) λ attendees. Ensures-after (Leaves-refuse _ _) λ u.
            Ensures-after (Leaves-refuse _ _) λ u. Ensures-after (Leaves-query _) λ previous.
              Ensures-bind (λ a. Booked) (Ensures-answer_all e attendees previous _)
                λ outcome. Ensures-after (Leaves-update _ (λ db. refl)) λ u.
                  Ensures-after (Leaves-query _) λ to.
                    Ensures-after (Leaves-send_mails ports g event_id key to) λ u.
                      Ensures-after (Leaves-update _ (λ db. refl)) λ u. Ensures-pure _ λ v b. b)

  Ensures-once :
      (previous : Option Answer)
      → Ensures Booked (once previous (answer_once ports c g event_id input key)) (λ a. Booked)
  unfolding once
  Ensures-once none = Ensures-answer_once
  Ensures-once (some answer) = Ensures-pure _ λ v b. b

-- `submit` keeps the places booked, whatever its outcome.
pub StaysBooked-submit :
    (ports : Ports) (c : Circumstances) (hashes : List Text) (event_id : Text)
    (input : List Response) (key : Text)
    → StaysBooked (submit ports c hashes event_id input key)
unfolding submit
StaysBooked-submit ports c hashes event_id input key = StaysBooked-transaction (
    Ensures-after (Leaves-authenticate c hashes) λ g. Ensures-after (Leaves-query _) λ archived.
      Ensures-after (Leaves-refuse _ _) λ u.
        Ensures-after (Leaves-operation ports _ _ _ _)
          λ previous. Ensures-once ports c g event_id input key previous)
