-- ===== src/Platform/Households/Access.antt =====
-- The private invitations of a household: `issueGrant`, `revokeGrant`, `exchange`, `logout` and
-- `authenticate` of packages/persistence/src/guests.ts.
use save_the_date.Base.{
  ℕ, ◌+◌, ◌*◌, min, Bool, not, ◌&&◌, ◌||◌, Option, none, some, List, [], ◌∷◌, ◌++◌, Text, codes,
  same, is_none, any, filter, find?, update_where, if◌then◌else◌, ltb, ◌>>=◌, ◌>>◌,
}
use save_the_date.Platform.Capability.{not_found}
use save_the_date.Platform.Households.{Party, Grant, GuestSession}
use save_the_date.Platform.Admission.Model.{Db, Action, Ports, Circumstances}
use save_the_date.Platform.Admission.Guards.{
  error, query, update, transaction, refuse, needed, owner_only,
}

-- `GuestSession` of packages/domain/src/index.ts
pub record Guest : Type 0 where
  pub session_id : Text
  pub grant_id : Text
  pub party_id : Text

-- `audit(tx, id, actor, action, resource)`
unfoldable pub add_audit : Option Text → Text → Text → Db → Db
add_audit actor action resource db = record db {
  audits =
      record { actor_id = actor; action = action; resource_id = resource; reason = none }
      ∷ db.audits;
}

unfoldable pub has_party : Text → Db → Bool
has_party id db = any (λ (p : Party). same p.id id && is_none p.deleted_at) db.parties

-- `any($1::text[])`
unfoldable pub among : List Text → Text → Bool
among hashes h = any (same h) hashes

module _ (c : Circumstances) where
  -- A grant that is not revoked, not over, and of a household that is not deleted
  unfoldable pub is_live : Db → Grant → Bool
  is_live db g = is_none g.revoked_at && ltb c.now g.expires_at && has_party g.party_id db

  unfoldable pub guest_of : Db → GuestSession → Option Guest
  guest_of db s = elim (find? (λ g. same g.id s.grant_id && is_live db g) db.guest_grants) [
    | none ↦ none
    | some g ↦ some (record { session_id = s.id; grant_id = g.id; party_id = g.party_id })
  ]

  -- The first session of the join that has one of the hashes and is not over
  unfoldable pub first_guest : List Text → Db → List GuestSession → Option Guest
  first_guest hashes db [] = none
  first_guest hashes db (s ∷ rest) =
      let later = first_guest hashes db rest in
      if among hashes s.token_hash && ltb c.now s.expires_at
      then elim (guest_of db s) [ none ↦ later | some g ↦ some g ]
      else later

  unfoldable pub guest_row : List Text → Db → Option Guest
  guest_row hashes db =
      if is_none db.wedding_deleted_at then first_guest hashes db db.guest_sessions else none

  -- `authenticate(sessionHash, tx)`
  unfoldable pub authenticate : List Text → Action Guest
  authenticate hashes = do
    row ← query (guest_row hashes)
    needed (error 401 (codes "GUEST_ACCESS_REQUIRED")) row

  unfoldable pub as_withdrawn : Grant → Grant
  as_withdrawn g = record g { revoked_at = some c.now }

  -- `revokeGrant(actor, id, grantId)`
  unfoldable pub revoke_grant : Text → Text → Action (Unit {0})
  revoke_grant actor grant_id = transaction (do
    owner_only actor
    hit ← query (λ db. any (λ (g : Grant). same g.id grant_id) db.guest_grants)
    update (λ db. record db {
      guest_grants = update_where (λ (g : Grant). same g.id grant_id) as_withdrawn db.guest_grants;
    })
    refuse (not hit) not_found
    update (add_audit (some actor) (codes "guest.grant_revoked") grant_id))

  module _ (ports : Ports) where
    unfoldable pub new_grant : Text → ℕ → Grant
    new_grant party_id days = record {
      id = c.fresh_id;
      party_id = party_id;
      token_hash = ports.hash (codes "rsvp:" ++ c.credential);
      code_hash = ports.hash (codes "rsvp:" ++ c.manual_credential);
      expires_at = c.now + days * 86400000;
      revoked_at = none;
    }

    unfoldable pub replaced : Text → Grant → Bool
    replaced party_id g = same g.party_id party_id && is_none g.revoked_at

    -- The transaction of `issueGrant(actor, id, partyId, days)`
    unfoldable pub issue_grant : Text → Text → ℕ → Action (Unit {0})
    issue_grant actor party_id days = transaction (do
      owner_only actor
      found ← query (has_party party_id)
      refuse (not found) not_found
      update (λ db. record db {
        guest_grants =
            new_grant party_id days ∷ update_where (replaced party_id) as_withdrawn db.guest_grants;
      })
      update (add_audit (some actor) (codes "guest.grant_rotated") party_id))

    -- A live grant that one of the hashes of the input, or of its upper case as a code, opens
    unfoldable pub opens : Text → Db → Grant → Bool
    opens input db g =
        let hashes = ports.candidates (codes "rsvp:" ++ input) in
        let upper = ports.candidates (codes "rsvp:" ++ ports.upper input) in
        is_live db g
        && (among hashes g.token_hash || among hashes g.code_hash || among upper g.code_hash)

    -- `exchange(slug, input, sessionHash)` at the slug of the wedding
    unfoldable pub exchange : Text → Text → Action (Unit {0})
    exchange input session_hash = do
      row ← query (λ db.
          if is_none db.wedding_deleted_at then find? (opens input db) db.guest_grants else none)
      g ← needed (error 401 (codes "INVALID_GUEST_ACCESS")) row
      update (λ db. record db {
        guest_sessions =
            record {
              id = c.fresh_id;
              grant_id = g.id;
              token_hash = session_hash;
              expires_at = min g.expires_at (c.now + 7 * 86400000);
            }
            ∷ db.guest_sessions;
      })

-- `logout(sessionHash)`
unfoldable pub logout : List Text → Action (Unit {0})
logout hashes = update (λ db. record db {
  guest_sessions = filter (λ (s : GuestSession). not (among hashes s.token_hash)) db.guest_sessions;
})
