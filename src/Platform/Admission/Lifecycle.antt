-- ===== src/Platform/Admission/Lifecycle.antt =====
-- Revoking and the sweep, followed through their guards to the rows that they move.
use save_the_date.Base.{
  ℕ, ◌≡◌, refl, Bool, true, List, [], ◌∷◌, Text, update_where, All-every, inl, arith,
}
use save_the_date.Platform.Admission.Model.{Db, Pass, active, Ports, Circumstances}
use save_the_date.Platform.Admission.Guards.{update, add_history}
use save_the_date.Platform.Admission.Control.{
  revocable, as_revoked, revoke, is_expiring, as_expired, note_expired, sweep,
}
use save_the_date.Platform.Admission.Life.{
  to_revoked, to_expired, Moved, active_of, view, rows, IsSealed, Stepped-update_where,
}
use save_the_date.Platform.Admission.Effects.{
  Keeps, Safe, Safe-bind, Safe-then, Safe-transaction, Keeps-update,
}
use save_the_date.Platform.Admission.Steady.{
  guarding, Safe-once, Keeps-add_history, Keeps-add_result,
}

-- An update of the rows by a test that reads the tables
Safe-update_where :
    (test : Db → Pass → Bool) (f : Db → Pass → Pass)
    → ((db : Db) (p : Pass) → (f db p).id ≡ p.id)
    → ((db : Db) (p : Pass) → IsSealed (f db p))
    → ((db : Db) (p : Pass) → test db p ≡ true → Moved p (f db p))
    → Safe (update (λ db. record db { passes = update_where (test db) (f db) db.passes }))
unfolding update
Safe-update_where test f keep sealed moves = record {
  steps = λ w wf.
      let (kept, evolved) =
        Stepped-update_where (test w.db) (f w.db) (view w) (keep w.db) (sealed w.db)
          (All-every (moves w.db) w.db.passes) wf in
      (kept, evolved, inl refl);
}

module _ (ports : Ports) (c : Circumstances) where
  revocable-Moved :
      (pass_id : Text) (version : ℕ) (reason : Text) (p : Pass)
      → revocable ports c pass_id version p ≡ true
      → Moved p (as_revoked ports c reason p)
  unfolding revocable as_revoked
  revocable-Moved pass_id version reason p h =
      let live : p.status ≡ active = active_of p.status (ground arith) in
      rw live (to_revoked, refl, refl, refl, refl)

  Safe-revoke_rows :
      (pass_id : Text) (version : ℕ) (reason : Text)
      → Safe (
          update (λ db. record db {
            passes =
                update_where
                  (revocable ports c pass_id version)
                  (as_revoked ports c reason)
                  db.passes;
          }))
  unfolding as_revoked
  Safe-revoke_rows pass_id version reason =
      Safe-update_where (λ db. revocable ports c pass_id version) (λ db. as_revoked ports c reason)
        (λ db p. refl) (λ db p. refl) (λ db. revocable-Moved pass_id version reason)

  pub Safe-revoke :
      (actor pass_id : Text) (version : ℕ) (reason key : Text)
      → Safe (revoke ports c actor pass_id version reason key)
  unfolding revoke
  Safe-revoke actor pass_id version reason key =
      search
        (
          guarding, Safe-transaction, Safe-bind, Safe-then, Safe-once, Safe-revoke_rows,
          Keeps-add_history, Keeps-add_result,
        )
        depth 14

  as_expired-Moved :
      (db : Db) (p : Pass) → is_expiring ports c db p ≡ true → Moved p (as_expired ports c p)
  unfolding is_expiring as_expired
  as_expired-Moved db p h =
      let live : p.status ≡ active = active_of p.status (ground arith) in
      rw live (to_expired, refl, refl, refl, refl)

  Safe-expire_rows : Safe (
      update (λ db. record db {
        passes = update_where (is_expiring ports c db) (as_expired ports c) db.passes;
      }))
  unfolding as_expired
  Safe-expire_rows =
      Safe-update_where (is_expiring ports c) (λ db. as_expired ports c) (λ db p. refl)
        (λ db p. refl) as_expired-Moved

  note_expired-rows : (ps : List Pass) (db : Db) → rows (note_expired ports c ps db) ≡ rows db
  unfolding note_expired add_history
  note_expired-rows [] db = refl
  note_expired-rows (p ∷ ps) db = note_expired-rows ps _

  Keeps-note_expired : (ps : List Pass) → Keeps (update (note_expired ports c ps))
  Keeps-note_expired ps = Keeps-update _ (note_expired-rows ps)

  pub Safe-sweep : Safe (sweep ports c)
  unfolding sweep
  Safe-sweep =
      search
        (guarding, Safe-transaction, Safe-bind, Safe-then, Safe-expire_rows, Keeps-note_expired)
        depth 8
