-- ===== src/Platform/Jobs/Laws.antt =====
-- The life of a job: which rows a query of a worker may change, and how.
use save_the_date.Base.{
  ℕ, ◌≡◌, ◌≢◌, ◌⊎◌, refl, sym, subst, ◌∙◌, Bool, true, false, not, ◌&&◌, Option, none, some, List,
  [], ◌∷◌, Text, same, same→eq, filter, update_where, All, All-imp, All-every, Distinct,
  filter_separates, Bool-cases, inl, inr, arith, leb, Option-cases,
}
use save_the_date.Platform.Jobs.{
  JobState, JobRow, Job, is_pending, is_working, is_ready, oldest, as_leased, lease, lease_found,
  older, is_held_by, as_beaten, heartbeat, as_acknowledged, ack, as_failed, fail, Query, leasing,
  beating, acknowledging, failing, answer, work,
}

-- A worker holds a job that is under way in its name.
abbrev pub Held : Text → JobRow → Type 0
Held owner j = (j.lease_owner ≡ some owner) × (is_working j.state ≡ true)

-- What a query may do to a row.
pub data Edge : JobRow → JobRow → Type 0 where
  take :
      (owner : Text) (now : ℕ) {j : JobRow} → is_ready now j ≡ true → Edge j (as_leased owner now j)
  beat : (owner : Text) (now : ℕ) {j : JobRow} → Held owner j → Edge j (as_beaten now j)
  acknowledge :
      (owner result : Text) {j : JobRow} → Held owner j → Edge j (as_acknowledged result j)
  give_up :
      (job : Job) (error_code : Text) (retryable : Bool) (now : ℕ) {j : JobRow}
      → Held job.lease_owner j
      → Edge j (as_failed job error_code retryable now j)

-- Row by row: as it is, or along an edge
abbrev pub Worked : List JobRow → List JobRow → Type 0
Worked [] ks = ks ≡ []
Worked (j ∷ js) [] = ⊥
Worked (j ∷ js) (k ∷ ks) = ((j ≡ k) ⊎ Edge j k) × Worked js ks

Worked-update_where :
    (test : JobRow → Bool) (f : JobRow → JobRow) (js : List JobRow)
    → All (λ j. test j ≡ true → Edge j (f j)) js
    → Worked js (update_where test f js)
Worked-update_where test f [] h = refl
Worked-update_where test f (j ∷ js) h = elim (Bool-cases (test j)) [
  | inl hit ↦ rw hit (inr (h.0 hit), Worked-update_where test f js h.1)
  | inr miss ↦ rw miss (inl refl, Worked-update_where test f js h.1)
]

is_held_by-Held : (id owner : Text) (j : JobRow) → is_held_by id owner j ≡ true → Held owner j
unfolding is_held_by
is_held_by-Held id owner j h = elim (Option-cases j.lease_owner) [
  | inl unowned ↦ ground arith
  | inr (o, is_owned) ↦ ground (arith, same→eq o owner)
]

Worked-Held :
    (id owner : Text) (f : JobRow → JobRow) (js : List JobRow)
    → ((j : JobRow) → Held owner j → Edge j (f j))
    → Worked js (update_where (is_held_by id owner) f js)
Worked-Held id owner f js edge =
    Worked-update_where (is_held_by id owner) f js
      (All-every (λ j h. edge j (is_held_by-Held id owner j h)) js)

older-All :
    (P : JobRow → Type 0) (k : JobRow) (o : Option JobRow)
    → P k
    → ((i : JobRow) → o ≡ some i → P i)
    → P (older k o)
unfolding older
older-All P k none h rest = h
older-All P k (some i) h rest = elim (Bool-cases (leb k.created_at i.created_at)) [
  | inl first ↦ rw first h
  | inr later ↦ rw later (rest i refl)
]

oldest-All :
    (P : JobRow → Type 0) (js : List JobRow) (j : JobRow) → All P js → oldest js ≡ some j → P j
unfolding oldest
oldest-All P [] j h e = cc
oldest-All P (k ∷ ks) j h e =
    subst P (cc e) (older-All P k (oldest ks) h.0 (λ i found. oldest-All P ks i h.1 found))

-- The row that a lease takes is the one row with its id.
lease-moves :
    (owner : Text) (now : ℕ) (j : JobRow) (js : List JobRow)
    → Distinct JobRow.id js
    → oldest (filter (is_ready now) js) ≡ some j
    → All (λ k. same k.id j.id ≡ true → Edge k (as_leased owner now k)) js
lease-moves owner now j js d e =
    All-imp js
      (λ k separate same_id. elim separate [
        | inl ready ↦ take owner now ready
        | inr others ↦ absurd (
            oldest-All (λ y. k.id ≢ y.id) (filter (is_ready now) js) j others e
              (same→eq k.id j.id same_id))
      ])
      (filter_separates JobRow.id (is_ready now) js d)

Worked-refl : (js : List JobRow) → Worked js js
Worked-refl [] = refl
Worked-refl (j ∷ js) = (inl refl, Worked-refl js)

Worked-lease :
    (owner : Text) (now : ℕ) (js : List JobRow) (o : Option JobRow)
    → Distinct JobRow.id js
    → oldest (filter (is_ready now) js) ≡ o
    → Worked js (lease_found owner now js o).1
unfolding lease_found
Worked-lease owner now js none d e = Worked-refl js
Worked-lease owner now js (some j) d e =
    Worked-update_where (λ k. same k.id j.id) (as_leased owner now) js
      (lease-moves owner now j js d e)

-- Where ids do not repeat, a query of a worker leaves each row as it is or moves it along one edge:
-- a row that is due or whose lease has lapsed is leased, and a row that is under way in the name of
-- the worker is beaten, acknowledged or given up.
pub answer-Worked : (q : Query) (js : List JobRow) → Distinct JobRow.id js → Worked js (answer q js)
unfolding answer lease heartbeat ack fail
answer-Worked (leasing owner now) js d =
    Worked-lease owner now js (oldest (filter (is_ready now) js)) d refl
answer-Worked (beating id owner now) js d =
    Worked-Held id owner (as_beaten now) js (λ j. beat owner now)
answer-Worked (acknowledging job result) js d =
    Worked-Held job.id job.lease_owner (as_acknowledged result) js
      (λ j. acknowledge job.lease_owner result)
answer-Worked (failing job error_code retryable now) js d =
    Worked-Held job.id job.lease_owner (as_failed job error_code retryable now) js
      (λ j. give_up job error_code retryable now)

Edge-id : {j k : JobRow} → Edge j k → k.id ≡ j.id
unfolding as_leased as_beaten as_acknowledged as_failed
Edge-id (take owner now h) = refl
Edge-id (beat owner now h) = refl
Edge-id (acknowledge owner result h) = refl
Edge-id (give_up job error_code retryable now h) = refl

-- Neither waiting nor under way: succeeded, failed, cancelled, or uncertain
abbrev pub is_finished : JobState → Bool
is_finished s = not (is_pending s) && not (is_working s)

Edge-unfinished : {j k : JobRow} → Edge j k → is_finished j.state ≡ false
unfolding is_ready
Edge-unfinished (take owner now h) = ground arith
Edge-unfinished (beat owner now h) = ground arith
Edge-unfinished (acknowledge owner result h) = ground arith
Edge-unfinished (give_up job error_code retryable now h) = ground arith

other_ids :
    (i : Text) (js ks : List JobRow)
    → Worked js ks
    → All (λ j. i ≢ j.id) js
    → All (λ k. i ≢ k.id) ks
other_ids i [] ks e h = subst (All (λ k. i ≢ k.id)) (sym e) tt
other_ids i (j ∷ js) [] e h = absurd e
other_ids i (j ∷ js) (k ∷ ks) (inl same_row, e) h =
    (subst (λ x. i ≢ x.id) same_row h.0, other_ids i js ks e h.1)
other_ids i (j ∷ js) (k ∷ ks) (inr edge, e) h =
    (subst (λ x. i ≢ x) (sym (Edge-id edge)) h.0, other_ids i js ks e h.1)

Worked-Distinct :
    (js ks : List JobRow) → Worked js ks → Distinct JobRow.id js → Distinct JobRow.id ks
Worked-Distinct [] ks e d = subst (Distinct JobRow.id) (sym e) tt
Worked-Distinct (j ∷ js) [] e d = absurd e
Worked-Distinct (j ∷ js) (k ∷ ks) (how, e) d =
    let same_id : k.id ≡ j.id = elim how [ inl same_row ↦ cc | inr edge ↦ Edge-id edge ] in
    (
      subst (λ i. All (λ x. i ≢ x.id) ks) (sym same_id) (other_ids j.id js ks e d.0),
      Worked-Distinct js ks e d.1,
    )

-- The row stands in the table.
abbrev pub Stands : JobRow → List JobRow → Type 0
Stands j [] = ⊥
Stands j (k ∷ ks) = (j ≡ k) ⊎ Stands j ks

Worked-Stands :
    (i : JobRow) (js ks : List JobRow)
    → Worked js ks
    → is_finished i.state ≡ true
    → Stands i js
    → Stands i ks
Worked-Stands i [] ks e h s = absurd s
Worked-Stands i (j ∷ js) [] e h s = absurd e
Worked-Stands i (j ∷ js) (k ∷ ks) (how, e) h (inr s) = inr (Worked-Stands i js ks e h s)
Worked-Stands i (j ∷ js) (k ∷ ks) (inl same_row, e) h (inl s) = inl (s ∙ same_row)
Worked-Stands i (j ∷ js) (k ∷ ks) (inr edge, e) h (inl s) =
    let finished : is_finished j.state ≡ true = subst (λ x. is_finished x.state ≡ true) s h in
    let unfinished : is_finished j.state ≡ false = Edge-unfinished edge in cc

-- Where ids do not repeat, a job that succeeded, failed, was cancelled or is uncertain stays in the
-- table as it is, over any interleaving of the queries of any number of workers.
pub work_keeps_finished :
    (qs : List Query) (i : JobRow) (js : List JobRow)
    → Distinct JobRow.id js
    → is_finished i.state ≡ true
    → Stands i js
    → Stands i (work qs js)
unfolding work
work_keeps_finished [] i js d h s = s
work_keeps_finished (q ∷ qs) i js d h s =
    let e = answer-Worked q js d in
    work_keeps_finished qs i (answer q js) (Worked-Distinct js (answer q js) e d) h
      (Worked-Stands i js (answer q js) e h s)
