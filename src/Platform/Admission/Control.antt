-- ===== src/Platform/Admission/Control.antt =====
-- Revoking, reissuing and expiring passes: `revoke`, `reissue` and `sweep` of
-- packages/persistence/src/passes.ts.
use save_the_date.Base.{
  ℕ, ◌+◌, ◌*◌, suc, Bool, true, false, not, ◌&&◌, ◌||◌, Option, none, some, List, [], ◌∷◌, ◌++◌,
  Text, codes, same, is_some, any, filter, find?, update_where, leb, ◌>>=◌, ◌>>◌, pure, throw, ◌==◌,
}
use save_the_date.Platform.Capability.{not_found}
use save_the_date.Platform.Admission.Model.{
  Db, Action, Pass, PassStatus, active, revoked, used, expired, Event, Answer, pass_version, Ports,
  Circumstances,
}
use save_the_date.Platform.Admission.Guards.{
  error, query, update, transaction, refuse, needed, owner_only, legacy_hold, event_row,
  add_history, add_ticket_jobs, operation, add_result, once, recorded,
}
use save_the_date.Platform.Admission.Passes.{
  is_active, is_disabled, is_eligible, available, credential_hash, manual_hash, payload,
}

-- `status in ('active','revoked','expired')`
abbrev pub is_reissuable : PassStatus → Bool
is_reissuable used = false
is_reissuable _ = true

module _ (ports : Ports) (c : Circumstances) where
  unfoldable pub pass_row : Text → Action Pass
  pass_row pass_id = do
    row ← query (λ db. find? (λ p. same p.id pass_id) db.passes)
    needed not_found row

  unfoldable pub revocable : Text → ℕ → Pass → Bool
  revocable pass_id version p = same p.id pass_id && (is_active p.status && p.version == version)

  unfoldable pub as_revoked : Text → Pass → Pass
  as_revoked reason p = record p {
    status = revoked;
    encrypted_payload = none;
    revoked_reason = some reason;
    version = suc p.version;
  }

  -- `revoke(actor, id, pid, version, reason, key)`
  unfoldable pub revoke : Text → Text → ℕ → Text → Text → Action Answer
  revoke actor pass_id version reason key =
      let name = codes "pass-revoke:" ++ pass_id in
      let body = some (ports.decimal version) ∷ some reason ∷ [] in
      transaction (do
        owner_only actor
        current ← pass_row pass_id
        previous ← operation ports actor name key body
        once previous (do
          hit ← query (λ db. any (revocable pass_id version) db.passes)
          update (λ db. record db {
            passes = update_where (revocable pass_id version) (as_revoked reason) db.passes;
          })
          refuse (not hit) (error 409 (codes "PASS_STATE_CONFLICT"))
          update (add_history pass_id (codes "revoked") (some actor) (some reason))
          let result = pass_version pass_id (suc version)
          update (add_result ports actor name key body result)
          pure result))

  -- The row that is locked before it is reissued
  unfoldable pub reissuable : Text → ℕ → Pass → Bool
  reissuable pass_id version p =
      same p.id pass_id && (is_reissuable p.status && p.version == version)

  unfoldable pub as_reissued : Text → Pass → Pass
  as_reissued sealed p = record p {
    status = active;
    credential_hash = credential_hash ports c;
    manual_hash = manual_hash ports c;
    encrypted_payload = some sealed;
    version = suc p.version;
    issued_at = c.now;
    revoked_reason = none;
  }

  -- Another row has one of the new hashes.
  unfoldable pub hash_taken : Text → Pass → Bool
  hash_taken pass_id p =
      not (same p.id pass_id)
      && (same p.credential_hash (credential_hash ports c)
          || same p.manual_hash (manual_hash ports c))

  -- The checks on the row that was locked, and the update of it
  unfoldable pub reissue_found : Text → Event → Pass → Action (Unit {0})
  reissue_found pass_id event p = do
    eligible ← query (is_eligible p.attendee_id p.event_id)
    refuse (is_disabled event.admission_policy || not eligible) (error 409 (codes "NOT_CONFIRMED"))
    seal ← available ports c
    taken ← query (λ db. any (hash_taken pass_id) db.passes)
    refuse taken (error 409 (codes "CONFLICT"))
    update (λ db. record db {
      passes =
          update_where (λ q. same q.id pass_id)
            (as_reissued (payload ports c seal db.wedding_id pass_id)) db.passes;
    })

  -- `if (!p.rowCount) throw …`
  unfoldable pub reissue_locked : Text → Event → Option Pass → Action (Unit {0})
  reissue_locked pass_id event none = throw (error 409 (codes "PASS_STATE_CONFLICT"))
  reissue_locked pass_id event (some p) = reissue_found pass_id event p

  unfoldable pub reissue_row : Text → ℕ → Event → Action (Unit {0})
  reissue_row pass_id version event = do
    row ← query (λ db. find? (reissuable pass_id version) db.passes)
    reissue_locked pass_id event row

  -- `reissue(actor, id, pid, version, reason, key)`
  unfoldable pub reissue : Text → Text → ℕ → Text → Text → Action Answer
  reissue actor pass_id version reason key =
      let name = codes "pass-reissue:" ++ pass_id in
      let body = some (ports.decimal version) ∷ some reason ∷ [] in
      transaction (do
        owner_only actor
        legacy_hold
        current ← pass_row pass_id
        event ← event_row current.event_id
        previous ← operation ports actor name key body
        once previous (do
          held ← recorded c pass_id
          refuse (is_some held) (error 409 (codes "ADMISSION_RECOVERY_HOLD"))
          reissue_row pass_id version event
          update (λ db.
              add_ticket_jobs pass_id (suc version) actor
                (add_history pass_id (codes "reissued") (some actor) (some reason) db))
          let result = pass_version pass_id (suc version)
          update (add_result ports actor name key body result)
          pure result))

  -- `coalesce(e.admission_ends_at, e.starts_at + interval '12 hours') <= now()`
  unfoldable pub is_over : Event → Bool
  is_over e = elim e.admission_ends_at [
    | some t ↦ leb t c.now
    | none ↦ elim e.starts_at [ none ↦ false | some t ↦ leb (t + 12 * 3600000) c.now ]
  ]

  unfoldable pub is_expiring : Db → Pass → Bool
  is_expiring db p =
      is_active p.status && any (λ (e : Event). same e.id p.event_id && is_over e) db.events

  unfoldable pub as_expired : Pass → Pass
  as_expired p = record p { status = expired; encrypted_payload = none; version = suc p.version }

  unfoldable pub note_expired : List Pass → Db → Db
  note_expired [] db = db
  note_expired (p ∷ ps) db =
      note_expired ps
        (add_history p.id (codes "expired") none (some (codes "Admission window ended")) db)

  -- `sweep()`
  unfoldable pub sweep : Action (Unit {0})
  sweep = transaction (do
    rows ← query (λ db. filter (is_expiring db) db.passes)
    update (λ db. record db { passes = update_where (is_expiring db) as_expired db.passes })
    update (note_expired rows))
