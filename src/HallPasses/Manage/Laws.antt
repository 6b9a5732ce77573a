-- ===== src/HallPasses/Manage/Laws.antt =====
-- What the changes to issued passes keep, and what they do to the passes they touch.
use save_the_date.Base.{
  ℕ, ◌≡◌, refl, true, List, [], ◌∷◌, arith, filter, any, count, length, length-map, length-filter,
  ◌∙◌, update_where, ◌==◌, any-update_where, count-update_where,
}
use save_the_date.HallPasses.Model.{HallPass, Db, IsWellFormed, is_active}
use save_the_date.Auth.Session.{AuthSession}
use save_the_date.HallPasses.Update.{update-IsWellFormed}
use save_the_date.HallPasses.Redeem.Once.{is_used}
use save_the_date.HallPasses.Manage.{
  mark_invalidated, invalidate_hall_pass, invalidate_all_hall_passes, EmailDelivery, mark_delivery,
  update_pass_email_delivery,
}

module _ (by : AuthSession) (now : ℕ) (db : Db) where
  pub invalidate_hall_pass-IsWellFormed :
      (id : ℕ) → IsWellFormed db → IsWellFormed (invalidate_hall_pass id by now db).1
  unfolding invalidate_hall_pass mark_invalidated
  invalidate_hall_pass-IsWellFormed id =
      update-IsWellFormed (λ p. p.id == id) (mark_invalidated now by) db (λ p. (refl, refl, refl))

  pub invalidate_hall_pass_keeps_used :
      (id i : ℕ)
      → any (is_used i) db.passes ≡ true
      → any (is_used i) (invalidate_hall_pass id by now db).1.passes ≡ true
  unfolding invalidate_hall_pass mark_invalidated
  invalidate_hall_pass_keeps_used id i =
      any-update_where (is_used i) (λ p. p.id == id) (mark_invalidated now by) db.passes (λ p h. h)

  pub invalidate_all_hall_passes-IsWellFormed :
      IsWellFormed db → IsWellFormed (invalidate_all_hall_passes by now db).1
  unfolding invalidate_all_hall_passes mark_invalidated
  invalidate_all_hall_passes-IsWellFormed =
      update-IsWellFormed is_active (mark_invalidated now by) db (λ p. (refl, refl, refl))

  pub invalidate_all_hall_passes_keeps_used :
      (i : ℕ)
      → any (is_used i) db.passes ≡ true
      → any (is_used i) (invalidate_all_hall_passes by now db).1.passes ≡ true
  unfolding invalidate_all_hall_passes mark_invalidated
  invalidate_all_hall_passes_keeps_used i =
      any-update_where (is_used i) is_active (mark_invalidated now by) db.passes (λ p h. h)

module _ (delivery : EmailDelivery) (now : ℕ) (db : Db) where
  pub update_pass_email_delivery-IsWellFormed :
      (ids : List ℕ)
      → IsWellFormed db
      → IsWellFormed (update_pass_email_delivery ids delivery now db).1
  unfolding update_pass_email_delivery mark_delivery
  update_pass_email_delivery-IsWellFormed [] wf = wf
  update_pass_email_delivery-IsWellFormed (j ∷ js) wf =
      update-IsWellFormed (λ p. any (λ i. p.id == i) (j ∷ js)) (mark_delivery delivery now) db
        (λ p. (refl, refl, refl)) wf

  pub update_pass_email_delivery_keeps_used :
      (ids : List ℕ) (i : ℕ)
      → any (is_used i) db.passes ≡ true
      → any (is_used i) (update_pass_email_delivery ids delivery now db).1.passes ≡ true
  unfolding update_pass_email_delivery mark_delivery
  update_pass_email_delivery_keeps_used [] i h = h
  update_pass_email_delivery_keeps_used (j ∷ js) i h =
      any-update_where (is_used i) (λ p. any (λ k. p.id == k) (j ∷ js)) (mark_delivery delivery now)
        db.passes (λ p u. u) h

invalidate_rows :
    (now later : ℕ) (by other : AuthSession) (id : ℕ) (ps : List HallPass)
    → update_where
        (λ p. p.id == id)
        (mark_invalidated later other)
        (update_where (λ p. p.id == id) (mark_invalidated now by) ps)
      ≡ update_where (λ p. p.id == id) (mark_invalidated now by) ps
unfolding mark_invalidated
invalidate_rows now later by other id [] = refl
invalidate_rows now later by other id (p ∷ ps) =
    grind (arith, invalidate_rows now later by other id ps)

-- To invalidate a pass a second time changes nothing: the first instant and the first name stay.
pub invalidate_hall_pass_again :
    (id now later : ℕ) (by other : AuthSession) (db : Db)
    → (invalidate_hall_pass id other later (invalidate_hall_pass id by now db).1).1
      ≡ (invalidate_hall_pass id by now db).1
unfolding invalidate_hall_pass
invalidate_hall_pass_again id now later by other db =
    rw (invalidate_rows now later by other id db.passes)

count_none :
    (now : ℕ) (by : AuthSession) (ps : List HallPass)
    → count is_active (update_where is_active (mark_invalidated now by) ps) ≡ 0
unfolding mark_invalidated
count_none now by [] = refl
count_none now by (p ∷ ps) = ground (arith, count_none now by ps)

-- After `invalidateAllHallPasses` no pass is active, and it returns as many as were active before.
pub invalidate_all_hall_passes-count :
    (now : ℕ) (by : AuthSession) (db : Db)
    → (count is_active (invalidate_all_hall_passes by now db).1.passes ≡ 0)
      × (length (invalidate_all_hall_passes by now db).0 ≡ count is_active db.passes)
unfolding invalidate_all_hall_passes
invalidate_all_hall_passes-count now by db = (
  count_none now by db.passes,
  length-map _ (filter is_active db.passes) ∙ length-filter is_active db.passes,
)

-- Recording a delivery changes which passes are active in no way.
pub update_pass_email_delivery_keeps_active :
    (ids : List ℕ) (delivery : EmailDelivery) (now : ℕ) (db : Db)
    → count is_active (update_pass_email_delivery ids delivery now db).1.passes
      ≡ count is_active db.passes
unfolding update_pass_email_delivery mark_delivery
update_pass_email_delivery_keeps_active [] delivery now db = refl
update_pass_email_delivery_keeps_active (i ∷ is) delivery now db =
    count-update_where is_active (λ p. any (λ j. p.id == j) (i ∷ is)) (mark_delivery delivery now)
      db.passes (λ p. refl)
