-- ===== src/HallPasses/Manage.antt =====
-- Changes to passes that are already issued, of apps/web/src/lib/hallPasses.ts:
-- `invalidateHallPass`, `invalidateAllHallPasses`, `getHallPassById` and
-- `updatePassEmailDelivery`.
pub mod Laws
pub mod Counts
use save_the_date.Base.{
  ℕ, Bool, Option, some, List, [], ◌∷◌, map, Text, head?, filter, any, update_where, coalesce, ◌==◌,
}
use save_the_date.HallPasses.Model.{HallPass, EmailStatus, not_sent, sent, failed, Db, is_active}
use save_the_date.Auth.Session.{AuthSession}

-- The `set` clause: the first invalidation stays.
unfoldable pub mark_invalidated : ℕ → AuthSession → HallPass → HallPass
mark_invalidated now by p = record p {
  invalidated_at = coalesce p.invalidated_at (some now);
  invalidated_by = coalesce p.invalidated_by (some by.email);
}

-- `update … set … where … returning …`
abbrev update_returning : (HallPass → Bool) → (HallPass → HallPass) → Db → List HallPass × Db
update_returning test change db =
    (map change (filter test db.passes), record db { passes = update_where test change db.passes })

-- `invalidateHallPass(passId, invalidatedBy)`
unfoldable pub invalidate_hall_pass : ℕ → AuthSession → ℕ → Db → Option HallPass × Db
invalidate_hall_pass pass_id by now db =
    let (rows, db') = update_returning (λ p. p.id == pass_id) (mark_invalidated now by) db in
    (head? rows, db')

-- `invalidateAllHallPasses(invalidatedBy)`
pub invalidate_all_hall_passes : AuthSession → ℕ → Db → List HallPass × Db
invalidate_all_hall_passes by now db = update_returning is_active (mark_invalidated now by) db

-- `getHallPassById(passId)`
unfoldable pub get_hall_pass_by_id : ℕ → Db → Option HallPass
get_hall_pass_by_id pass_id db = head? (filter (λ p. p.id == pass_id) db.passes)

pub record EmailDelivery : Type 0 where
  pub recipient : Text
  pub status : EmailStatus
  pub error : Option Text

-- `case when $3 = 'sent' then now() else email_sent_at end`
sent_at : EmailStatus → ℕ → Option ℕ → Option ℕ
sent_at sent now before = some now
sent_at not_sent now before = before
sent_at failed now before = before

unfoldable pub mark_delivery : EmailDelivery → ℕ → HallPass → HallPass
unfolding sent_at
mark_delivery delivery now p = record p {
  email_recipient = some delivery.recipient;
  email_status = delivery.status;
  email_sent_at = sent_at delivery.status now p.email_sent_at;
  email_error = delivery.error;
}

-- `updatePassEmailDelivery(passIds, delivery)`
unfoldable pub update_pass_email_delivery : List ℕ → EmailDelivery → ℕ → Db → List HallPass × Db
update_pass_email_delivery [] delivery now db = ([], db)
update_pass_email_delivery (i ∷ is) delivery now db =
    update_returning (λ p. any (λ j. p.id == j) (i ∷ is)) (mark_delivery delivery now) db
