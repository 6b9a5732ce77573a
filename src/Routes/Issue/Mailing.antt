-- ===== src/Routes/Issue/Mailing.antt =====
-- What the mail of a request to issue passes leaves on their rows and in the answer.
use save_the_date.Base.{
  ℕ, ◌≡◌, ◌↔◌, refl, ap, ap₂, subst, sym, ◌∙◌, Bool, true, false, Option, none, some, List, [], ◌∷◌,
  map, arith, Text, codes, any, length, find?, find?-All, All, All-Unit, or_else, update_where,
  ◌==◌, Bool-cases, inl, inr, if◌then◌else◌,
}
use mathlib.Core.List.{reverse}
use save_the_date.HallPasses.Model.{HallPass, sent, failed, Db}
use save_the_date.HallPasses.Create.{Draw}
use save_the_date.HallPasses.Manage.{EmailDelivery, mark_delivery, update_pass_email_delivery}
use save_the_date.Mail.Message.{join}
use save_the_date.Mail.Batches.{Provider, BatchResult}
use save_the_date.Routes.Issue.{latest, record_results}

abbrev named : List ℕ → HallPass → Bool
named ids q = any (λ i. q.id == i) ids

-- The row of a pass that the result names as failed, or else as sent
abbrev Marked : Text → Text → ℕ → Bool → Bool → HallPass → Type 0
Marked recipient errors now true of_sent q =
    (q.email_status ≡ failed) × (q.email_recipient ≡ some recipient) × (q.email_error ≡ some errors)
Marked recipient errors now false true q =
    (q.email_status ≡ sent)
    × (q.email_recipient ≡ some recipient)
    × (q.email_error ≡ none)
    × (q.email_sent_at ≡ some now)
Marked recipient errors now false false q = Unit

abbrev pub Recorded : Text → ℕ → BatchResult → HallPass → Type 0
Recorded recipient now r q =
    Marked recipient (join (codes " ") r.errors) now (named r.failed_pass_ids q)
      (named r.sent_pass_ids q) q

untouched :
    (f : HallPass → HallPass) (ps : List HallPass) → ps ≡ update_where (λ q. named [] q) f ps
untouched f [] = refl
untouched f (p ∷ ps) = ap (λ qs. p ∷ qs) (untouched f ps)

updated_rows :
    (ids : List ℕ) (delivery : EmailDelivery) (now : ℕ) (db : Db)
    → (update_pass_email_delivery ids delivery now db).1.passes
      ≡ update_where (λ q. named ids q) (mark_delivery delivery now) db.passes
unfolding update_pass_email_delivery
updated_rows [] delivery now db = untouched (mark_delivery delivery now) db.passes
updated_rows (i ∷ is) delivery now db = refl

module _ (recipient : Text) (now : ℕ) (r : BatchResult) where
  abbrev of_sent : HallPass → HallPass
  of_sent = mark_delivery (record { recipient = recipient; status = sent; error = none }) now

  abbrev of_failed : HallPass → HallPass
  of_failed =
      mark_delivery
        (record {
          recipient = recipient;
          status = failed;
          error = some (join (codes " ") r.errors);
        })
        now

  abbrev step_failed : HallPass → HallPass
  step_failed q = if named r.failed_pass_ids q then of_failed q else q

  abbrev step_sent : HallPass → HallPass
  step_sent q = if named r.sent_pass_ids q then of_sent q else q

  Recorded-row : (q : HallPass) → Recorded recipient now r (step_failed (step_sent q))
  unfolding mark_delivery
  Recorded-row q = elim (Bool-cases (named r.sent_pass_ids q)) [
    | inl s ↦ elim (Bool-cases (named r.failed_pass_ids q)) [
      | inl f ↦ rw (s, f, f) (refl, refl, refl)
      | inr f ↦ rw (s, f, f, s) (refl, refl, refl, refl)
    ]
    | inr s ↦ elim (Bool-cases (named r.failed_pass_ids q)) [
      | inl f ↦ rw (s, f, f) (refl, refl, refl)
      | inr f ↦ rw (s, f, f, s) tt
    ]
  ]

  Recorded-rows :
      (ps : List HallPass)
      → All (Recorded recipient now r) (
          update_where
            (λ q. named r.failed_pass_ids q)
            of_failed
            (update_where (λ q. named r.sent_pass_ids q) of_sent ps))
  Recorded-rows [] = tt
  Recorded-rows (p ∷ ps) = (Recorded-row p, Recorded-rows ps)

  pub record_results-Recorded :
      (provider : Provider) (upper : Text → Text) (draws : ℕ → Draw) (db : Db)
      → All
          (Recorded recipient now r)
          (record_results provider upper draws now recipient r db).1.passes
  unfolding record_results
  record_results-Recorded provider upper draws db =
      let sent_rows =
        (update_pass_email_delivery r.sent_pass_ids
          (record { recipient = recipient; status = sent; error = none }) now db).1 in
      subst (All (Recorded recipient now r))
        (sym (
          updated_rows r.failed_pass_ids
            (record {
              recipient = recipient;
              status = failed;
              error = some (join (codes " ") r.errors);
            })
            now sent_rows
          ∙ ap (update_where (λ q. named r.failed_pass_ids q) of_failed) (
              updated_rows r.sent_pass_ids
                (record { recipient = recipient; status = sent; error = none }) now db)))
        (Recorded-rows db.passes)

found_id :
    (p : HallPass) (rows : List HallPass) (o : Option HallPass)
    → find? (λ q. q.id == p.id) rows ≡ o
    → (or_else o p).id ≡ p.id
found_id p rows none h = refl
found_id p rows (some q) h =
    let hit =
      (find?-All (λ (x : HallPass). Unit {0}) (λ x. x.id == p.id) rows q (All-Unit rows) h).1 in
    ground (arith, hit)

-- A pass that is read anew keeps its id.
latest-id : (rows : List HallPass) (p : HallPass) → (latest rows p).id ≡ p.id
unfolding latest
latest-id rows p = found_id p (reverse rows) (find? (λ q. q.id == p.id) (reverse rows)) refl

pub map-latest :
    (rows ps : List HallPass)
    → map (λ (q : HallPass). q.id) (map (latest rows) ps) ≡ map (λ (q : HallPass). q.id) ps
map-latest rows [] = refl
map-latest rows (p ∷ ps) = ap₂ (λ i is. i ∷ is) (latest-id rows p) (map-latest rows ps)

pub none_failed : {A : Type 0} (xs : List A) → (length xs == 0 ≡ true) ↔ (xs ≡ [])
none_failed [] = (λ h. refl, λ h. refl)
none_failed (x ∷ xs) = (λ h. absurd (ground (arith, h)), λ h. cc)
