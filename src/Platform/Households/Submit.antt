-- ===== src/Platform/Households/Submit.antt =====
-- The answers of a household: `submit` of packages/persistence/src/guests.ts.
use save_the_date.Base.{
  ℕ, ◌+◌, ◌-◌, ◌*◌, ◌==◌, Bool, false, not, ◌&&◌, Option, none, some, List, [], ◌∷◌, ◌++◌, map,
  Text, codes, same, is_none, any, length, filter, find?, if◌then◌else◌, leb, ltb, ◌>>=◌, ◌>>◌,
  pure,
}
use save_the_date.Platform.Capability.{not_found}
use save_the_date.Platform.Households.{Eligibility, Questions, Response, Queued, Choice}
use save_the_date.Platform.Households.Access.{Guest, authenticate, add_audit}
use save_the_date.Platform.Households.Release.{Tally, is_declining, release_all}
use save_the_date.Platform.Households.Record.{record_all}
use save_the_date.Platform.Admission.Model.{
  Db, Action, Event, Attendee, Rsvp, Answer, responded, Ports, Circumstances,
}
use save_the_date.Platform.Admission.Guards.{
  error, query, update, transaction, refuse, event_row, operation, add_result, once,
}
use save_the_date.Platform.Admission.Correct.{set_count}

abbrev pub choice_text : Choice → Text
choice_text c = if is_declining c then codes "declining" else codes "attending"

-- The input, as the digest takes it
unfoldable pub rsvp_body : Ports → List Response → List (Option Text)
rsvp_body ports [] = []
rsvp_body ports (r ∷ rs) =
    some r.attendee_id
    ∷ some (ports.decimal r.expected_version)
    ∷ some (ports.decimal r.attendee_version)
    ∷ some (choice_text r.choice)
    ∷ some r.name
    ∷ some r.meal
    ∷ some r.dietary
    ∷ some r.accessibility
    ∷ some r.note
    ∷ rsvp_body ports rs

-- `new Set(…)`, as the list of its members
unfoldable pub unique : List Text → List Text
unique [] = []
unique (s ∷ rest) = let others = unique rest in if any (same s) others then others else s ∷ others

unfoldable pub is_allocated : Text → Text → Db → Attendee → Bool
is_allocated party_id event_id db a =
    same a.party_id party_id
    && is_none a.deleted_at
    && any (λ (x : Eligibility). same x.attendee_id a.id && same x.event_id event_id)
        db.attendee_events

-- The answers are for exactly the attendees of the party for the event.
unfoldable pub covers_exactly : List Response → List Attendee → Bool
covers_exactly rs attendees =
    length rs == length attendees
    && length (unique (map Response.attendee_id rs)) == length attendees
    && not
        (any (λ (r : Response). not (any (λ (a : Attendee). same a.id r.attendee_id) attendees)) rs)

unfoldable pub no_questions : Text → Questions
no_questions event_id = record {
  event_id = event_id;
  meal = false;
  dietary = false;
  accessibility = false;
  note = false;
}

-- The columns of the left join, `coalesce(…, false)`
unfoldable pub questions_of : Text → Db → Questions
questions_of event_id db = elim (find? (λ (q : Questions). same q.event_id event_id) db.questions) [
  | none ↦ no_questions event_id
  | some q ↦ q
]

-- `event.ends_at ?? event.starts_at`
unfoldable pub ends : Event → Option ℕ
ends e = elim e.ends_at [ some t ↦ some t | none ↦ e.starts_at ]

unfoldable pub is_past : Option ℕ → ℕ → ℕ → Bool
is_past none days now = false
is_past (some t) days now = leb (t + days * 86400000) now

-- Ninety days after the event its questions are closed.
unfoldable pub asked_questions : Circumstances → Event → Questions → Questions
asked_questions c e q = if is_past (ends e) 90 c.now then no_questions e.id else q

unfoldable pub start_tally : Event → Tally
start_tally e = record { initial = e.confirmed_count; taken = 0; released = 0 }

-- `update std_events set confirmed_count = $3`, with the check `confirmed_count >= 0` of the column.
-- That the count keeps within the capacity is a check of the table too; it is not made here.
unfoldable pub write_count : Text → Tally → Action (Unit {0})
write_count event_id t = do
  refuse (ltb (t.initial + t.taken) t.released) (error 500 (codes "23514"))
  update (set_count event_id (λ n. t.initial + t.taken - t.released))

module _ (ports : Ports) where
  -- `select distinct email …`: the addresses of the party
  unfoldable pub emails : Text → List Attendee → List Text
  emails party_id [] = []
  emails party_id (a ∷ rest) =
      let others = emails party_id rest in
      elim a.email [
        | none ↦ others
        | some e ↦
            if same a.party_id party_id && is_none a.deleted_at && not (any (same e) others)
            then e ∷ others
            else others
      ]

  unfoldable pub mail_key : Guest → Text → Text → Text → Text
  mail_key g event_id key email =
      codes "rsvp-mail:"
      ++ g.grant_id
      ++ codes ":"
      ++ event_id
      ++ codes ":"
      ++ key
      ++ codes ":"
      ++ ports.hash email

  unfoldable pub append_job : Text → Text → Db → Db
  append_job kind key db = record db { jobs = record { kind = kind; dedupe_key = key } ∷ db.jobs }

  -- A mail to every address; a key that is taken is a conflict.
  unfoldable pub send_mails : Guest → Text → Text → List Text → Action (Unit {0})
  send_mails g event_id key [] = pure tt
  send_mails g event_id key (email ∷ rest) = do
    clash ←
        query
          (λ db. any (λ (j : Queued). same j.dedupe_key (mail_key g event_id key email)) db.jobs)
    refuse clash (error 409 (codes "CONFLICT"))
    update (append_job (codes "email") (mail_key g event_id key email))
    send_mails g event_id key rest

  module _ (c : Circumstances) (g : Guest) (event_id : Text) (input : List Response)
      (key : Text) where
    -- The two loops, and the count that they leave
    unfoldable pub answer_all : Event → List Attendee → List Rsvp → Questions → Action Answer
    answer_all e attendees previous asked = do
      t ← release_all e.id attendees previous input (start_tally e)
      rest ← record_all ports e asked attendees previous input t
      write_count e.id rest.1
      pure (responded rest.0)

    -- The part behind the key
    unfoldable pub answer_once : Action Answer
    answer_once = do
      e ← event_row event_id
      q ← query (questions_of e.id)
      refuse (elim e.rsvp_cutoff [ none ↦ false | some t ↦ leb t c.now ])
          (error 409 (codes "RSVP_CLOSED"))
      attendees ← query (λ db. filter (is_allocated g.party_id e.id db) db.attendees)
      refuse (length attendees == 0) not_found
      refuse (not (covers_exactly input attendees)) (error 400 (codes "PARTY_ALLOCATION"))
      previous ← query (λ db.
          filter
            (λ (r : Rsvp).
              same r.event_id e.id && any (λ (a : Attendee). same a.id r.attendee_id) attendees)
            db.rsvps)
      outcome ← answer_all e attendees previous (asked_questions c e q)
      update (
          add_result ports (codes "guest:" ++ g.grant_id) (codes "rsvp:" ++ event_id) key
            (rsvp_body ports input) outcome)
      to ← query (λ db. emails g.party_id db.attendees)
      send_mails g event_id key to
      update (add_audit none (codes "rsvp.submitted") g.party_id)
      pure outcome

  -- `submit(sessionHash, eventId, input, key)`
  unfoldable pub submit : Circumstances → List Text → Text → List Response → Text → Action Answer
  submit c hashes event_id input key = transaction (do
    g ← authenticate c hashes
    archived ← query Db.archived
    refuse archived (error 409 (codes "WEDDING_ARCHIVED"))
    previous ←
        operation ports (codes "guest:" ++ g.grant_id) (codes "rsvp:" ++ event_id) key
          (rsvp_body ports input)
    once previous (answer_once c g event_id input key))
