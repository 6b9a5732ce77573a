-- ===== src/HallPasses/Manage/Counts.antt =====
-- What one invalidation does to the counts of active and of invalidated passes.
use save_the_date.Base.{
  ℕ, ◌+◌, ◌≡◌, ◌≢◌, refl, subst, Bool, true, false, ◌&&◌, is_some, Distinct, All, Bool-cases, inl,
  inr, List, [], ◌∷◌, arith, any, count, update_where, ◌==◌,
}
use save_the_date.HallPasses.Model.{HallPass, Db, is_active}
use save_the_date.Auth.Session.{AuthSession}
use save_the_date.HallPasses.Manage.{mark_invalidated, invalidate_hall_pass}

abbrev pub is_void : HallPass → Bool
is_void p = is_some p.invalidated_at

untouched :
    (f : HallPass → HallPass) (id : ℕ) (ps : List HallPass)
    → All (λ q. id ≢ q.id) ps
    → update_where (λ p. p.id == id) f ps ≡ ps
untouched f id [] h = refl
untouched f id (p ∷ ps) h = ground (arith, h, untouched f id ps h.1)

absent :
    (id : ℕ) (ps : List HallPass)
    → All (λ q. id ≢ q.id) ps
    → any (λ p. p.id == id && is_active p) ps ≡ false
absent id [] h = refl
absent id (p ∷ ps) h = ground (arith, h, absent id ps h.1)

counts_lem :
    (now : ℕ) (by : AuthSession) (id : ℕ) (ps : List HallPass)
    → Distinct HallPass.id ps
    → any (λ p. p.id == id && is_active p) ps ≡ true
    → let after = update_where (λ p. p.id == id) (mark_invalidated now by) ps in
      (count is_active after + 1 ≡ count is_active ps)
      × (count is_void after ≡ count is_void ps + 1)
unfolding mark_invalidated
counts_lem now by id [] d h = absurd (ground (arith, h))
counts_lem now by id (p ∷ ps) d h = elim (Bool-cases (p.id == id)) [
  | inl hit ↦
      let same_id : p.id ≡ id = ground (arith, hit) in
      let alone : All (λ q. id ≢ q.id) ps =
        subst (λ i. All (λ (q : HallPass). i ≢ q.id) ps) same_id d.0 in
      rw (untouched (mark_invalidated now by) id ps alone)
        (ground (arith, hit, h, absent id ps alone))
  | inr miss ↦ ground (arith, miss, h, counts_lem now by id ps d.1)
]

-- Where the pass was active, one pass fewer is active after it is invalidated, and one more is
-- invalidated.
pub invalidate_hall_pass-counts :
    (id now : ℕ) (by : AuthSession) (db : Db)
    → Distinct HallPass.id db.passes
    → any (λ p. p.id == id && is_active p) db.passes ≡ true
    → let after = (invalidate_hall_pass id by now db).1 in
      (count is_active after.passes + 1 ≡ count is_active db.passes)
      × (count is_void after.passes ≡ count is_void db.passes + 1)
unfolding invalidate_hall_pass
invalidate_hall_pass-counts id now by db d h = counts_lem now by id db.passes d h
