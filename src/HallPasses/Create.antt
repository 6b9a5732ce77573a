-- ===== src/HallPasses/Create.antt =====
-- Issuing passes: `createReadableToken`, `createHallPass` and `createHallPasses` of
-- apps/web/src/lib/hallPasses.ts. The transaction works on a copy of the table, which a rollback
-- drops; the ticket number sequence of PostgreSQL moves with every attempt to insert, and a
-- rollback does not move it back.
pub mod Batch
pub mod Limit
pub mod Success
pub mod Shape
use save_the_date.Base.{
  ℕ, zero, suc, ◌+◌, ◌%◌, Bool, false, Option, none, some, List, [], ◌∷◌, ◌++◌, map, Text, codes,
  same, or_null, trim, length, head?, count, any, take, drop, ltb, ◌==◌, if◌then◌else◌, Outcome,
  returned, thrown, Run, ◌>>=◌, pure, throw,
}
use save_the_date.HallPasses.Model.{HallPass, not_sent, Db, is_active}
use save_the_date.Auth.Session.{AuthSession}

-- What the random source gives to one attempt: eight bytes, and the id of the row.
pub record Draw : Type 0 where
  pub bytes : List ℕ
  pub id : ℕ

pub data CreateError : Type 0 where
  no_unique_token unique_violation : CreateError

abbrev pub alphabet : Text
alphabet = codes "ABCDEFGHJKLMNPQRSTUVWXYZ23456789"

letter_at : Text → ℕ → ℕ
letter_at [] i = 0
letter_at (c ∷ s) zero = c
letter_at (c ∷ s) (suc i) = letter_at s i

-- `alphabet[byte % alphabet.length]`
pub letter : ℕ → ℕ
unfolding letter_at
letter byte = letter_at alphabet (byte % length alphabet)

-- `createReadableToken()` on eight random bytes
unfoldable pub create_readable_token : List ℕ → Text
unfolding letter
create_readable_token bytes =
    let characters = map letter bytes in
    codes "HP-" ++ (take 4 characters ++ (codes "-" ++ take 4 (drop 4 characters)))

-- The transaction: its copy of the table, the sequence, and how many draws were taken.
pub record Transaction : Type 0 where
  pub table : List HallPass
  pub next_ticket : ℕ
  pub drawn : ℕ

abbrev pub Creates : Type 0 → Type 0
Creates A = Run Transaction CreateError A

abbrev advance : Transaction → Transaction
advance tx = record tx { next_ticket = tx.next_ticket + 1; drawn = tx.drawn + 1 }

abbrev add_row : HallPass → Transaction → Transaction
add_row p tx = record {
  table = p ∷ tx.table;
  next_ticket = tx.next_ticket + 1;
  drawn = tx.drawn + 1;
}

-- `if (!createdPass) throw new Error(…)`
created_or_throw : Option HallPass → Creates HallPass
created_or_throw none = throw no_unique_token
created_or_throw (some p) = pure p

-- `commit`, or `rollback` and `throw error`
finish :
    Db
    → Outcome CreateError (List HallPass) × Transaction
    → Outcome CreateError (List HallPass) × Db
finish db (thrown e, tx) = (thrown e, record db { next_ticket = tx.next_ticket })
finish db (returned passes, tx) =
    (returned passes, record db { passes = tx.table; next_ticket = tx.next_ticket })

unfoldable pub configured_limit : Db → Option ℕ
configured_limit db = elim db.settings [ none ↦ none | some row ↦ row.ticket_limit ]

-- `configuredLimit !== null && issuedCount + normalizedGuestNames.length > configuredLimit`
exceeds : Option ℕ → ℕ → ℕ → Bool
exceeds none issued wanted = false
exceeds (some limit) issued wanted = ltb limit (issued + wanted)

module _ (upper : Text → Text) (now : ℕ) (invite_from : Option Text)
    (created_by : AuthSession) where
  -- `inviteFrom?.trim() || null`
  invite : Option Text → Option Text
  invite none = none
  invite (some s) = or_null (trim s)

  -- The row of the insert, with the defaults of the table.
  pub new_row : Text → Text → ℕ → ℕ → HallPass
  new_row guest_name token id number = record {
    id = id;
    ticket_number = number;
    token = token;
    guest_name = or_null guest_name;
    invite_from = invite invite_from;
    created_by = some created_by.email;
    created_at = now;
    used_at = none;
    used_by = none;
    invalidated_at = none;
    invalidated_by = none;
    email_recipient = none;
    email_status = not_sent;
    email_sent_at = none;
    email_error = none;
  }

  -- `insert … on conflict (token) do nothing returning …`
  insert_row : Text → Text → ℕ → Creates (Option HallPass)
  insert_row guest_name token id tx =
      if any (λ p. same p.token token) tx.table
      then (returned none, advance tx)
      else if any (λ p. p.id == id) tx.table
      then (thrown unique_violation, advance tx)
      else let row = new_row guest_name token id tx.next_ticket in
        (returned (some row), add_row row tx)

  module _ (draws : ℕ → Draw) where
    -- One round of the attempt loop.
    attempt : Text → Creates (Option HallPass)
    attempt guest_name tx =
        let draw = draws tx.drawn in
        insert_row guest_name (upper (create_readable_token draw.bytes)) draw.id tx

    -- `for (let attempt = 0; attempt < 5 && !createdPass; attempt += 1)`, by the rounds left
    attempts : ℕ → Text → Creates (Option HallPass)
    attempts zero guest_name = pure none
    attempts (suc left) guest_name = do
      created ← attempt guest_name
      elim created [ none ↦ attempts left guest_name | some p ↦ pure (some p) ]

    -- The loop over the guests; `passes.push(createdPass)`.
    pub create_each : List Text → Creates (List HallPass)
    create_each [] = pure []
    create_each (guest_name ∷ rest) = do
      created ← attempts 5 guest_name
      p ← created_or_throw created
      passes ← create_each rest
      pure (p ∷ passes)

    create_normalized : List Text → Db → Outcome CreateError (List HallPass) × Db
    create_normalized [] db = (returned [], db)
    create_normalized (name ∷ names) db =
        if exceeds (configured_limit db) (count is_active db.passes) (length (name ∷ names))
        then (returned [], db)
        else finish db (
            create_each (name ∷ names)
              (record { table = db.passes; next_ticket = db.next_ticket; drawn = 0 }))

    -- `createHallPasses(guestNames, inviteFrom, createdBy)`
    pub create_hall_passes : List Text → Db → Outcome CreateError (List HallPass) × Db
    create_hall_passes guest_names db = create_normalized (map trim guest_names) db

    -- `createHallPass(guestName, inviteFrom, createdBy)`
    pub create_hall_pass : Text → Db → Outcome CreateError (Option HallPass) × Db
    create_hall_pass guest_name = do
      passes ← create_hall_passes (guest_name ∷ [])
      pure (head? passes)
