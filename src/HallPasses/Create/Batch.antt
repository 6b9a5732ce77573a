-- ===== src/HallPasses/Create/Batch.antt =====
-- What the transaction of `createHallPasses` has done after each of its loops.
use mathlib.Core.List.{reverse_aux}
use save_the_date.Base.{
  ℕ, zero, suc, ◌+◌, ◌<◌, ◌≤◌, ◌≡◌, refl, ◌≢◌, false, Option, none, some, List, [], ◌∷◌, arith,
  Text, same, same_iff, or_null, any, All, Distinct, ◌==◌, Outcome, returned, thrown, resume, ◌>>=◌,
  pure, ap, ◌∙◌, subst, Bool-cases, inl, inr,
}
use save_the_date.HallPasses.Model.{HallPass}
use save_the_date.Auth.Session.{AuthSession}
use save_the_date.HallPasses.Create.{
  Draw, CreateError, Transaction, new_row, insert_row, attempt, attempts, created_or_throw,
  create_each,
}

-- The keys of the transaction's copy of the table.
pub record IsConsistent (tx : Transaction) : Type 0 where
  pub ids : Distinct HallPass.id tx.table
  pub tokens : Distinct HallPass.token tx.table
  pub numbers : Distinct HallPass.ticket_number tx.table
  pub ahead : All (λ p. p.ticket_number < tx.next_ticket) tx.table

no_token :
    (token : Text) (ps : List HallPass)
    → any (λ p. same p.token token) ps ≡ false
    → All (λ q. token ≢ q.token) ps
no_token token [] h = tt
no_token token (q ∷ qs) h = ground (arith, same_iff q.token token, no_token token qs)

no_id : (id : ℕ) (ps : List HallPass) → any (λ p. p.id == id) ps ≡ false → All (λ q. id ≢ q.id) ps
no_id id [] h = tt
no_id id (q ∷ qs) h = ground (arith, no_id id qs)

no_number :
    (n : ℕ) (ps : List HallPass)
    → All (λ p. p.ticket_number < n) ps
    → All (λ q. n ≢ q.ticket_number) ps
no_number n [] h = tt
no_number n (q ∷ qs) h = (omega arith, no_number n qs h.1)

ahead_suc :
    (n : ℕ) (ps : List HallPass)
    → All (λ p. p.ticket_number < n) ps
    → All (λ p. p.ticket_number < n + 1) ps
ahead_suc n [] h = tt
ahead_suc n (q ∷ qs) h = (omega arith, ahead_suc n qs h.1)

module _ (upper : Text → Text) (now : ℕ) (invite_from : Option Text)
    (created_by : AuthSession) where
  -- A pass as it is issued: for this guest, not used, not invalidated.
  pub record IsIssued (guest_name : Text) (p : HallPass) : Type 0 where
    pub guest : p.guest_name ≡ or_null guest_name
    pub creator : p.created_by ≡ some created_by.email
    pub created : p.created_at ≡ now
    pub unused : p.used_at ≡ none
    pub active : p.invalidated_at ≡ none

  -- What a step of the attempt loop has done to the table, by its result.
  abbrev Attempted :
      Text → List HallPass → ℕ → Outcome CreateError (Option HallPass) × Transaction → Type 0
  Attempted guest_name table n (thrown e, tx') = n ≤ tx'.next_ticket
  Attempted guest_name table n (returned none, tx') =
      IsConsistent tx' × (tx'.table ≡ table) × (n ≤ tx'.next_ticket)
  Attempted guest_name table n (returned (some p), tx') =
      IsConsistent tx' × (tx'.table ≡ p ∷ table) × (n ≤ tx'.next_ticket) × IsIssued guest_name p

  weaken :
      (guest_name : Text) (table : List HallPass) (n n' : ℕ)
      (r : Outcome CreateError (Option HallPass) × Transaction)
      → n ≤ n'
      → Attempted guest_name table n' r
      → Attempted guest_name table n r
  weaken guest_name table n n' (thrown e, tx') le h = omega arith
  weaken guest_name table n n' (returned none, tx') le h = (h.0, h.1, omega arith)
  weaken guest_name table n n' (returned (some p), tx') le h = (h.0, h.1, omega arith, h.3)

  -- What the loop over the guests has done.
  abbrev pub Named : List Text → List HallPass → Type 0
  Named [] [] = Unit
  Named [] (p ∷ ps) = ⊥
  Named (g ∷ gs) [] = ⊥
  Named (g ∷ gs) (p ∷ ps) = IsIssued g p × Named gs ps

  abbrev pub Batch :
      List Text → List HallPass → ℕ → Outcome CreateError (List HallPass) × Transaction → Type 0
  Batch guests table n (thrown e, tx') = n ≤ tx'.next_ticket
  Batch guests table n (returned ps, tx') =
      IsConsistent tx'
      × (tx'.table ≡ reverse_aux ps table)
      × (n ≤ tx'.next_ticket)
      × Named guests ps

  insert_row-Attempted :
      (guest_name token : Text) (id : ℕ) (tx : Transaction)
      → IsConsistent tx
      → Attempted guest_name tx.table tx.next_ticket
          (insert_row upper now invite_from created_by guest_name token id tx)
  unfolding insert_row new_row
  insert_row-Attempted guest_name token id tx c =
      let later = ahead_suc tx.next_ticket tx.table c.ahead in
      elim (Bool-cases (any (λ p. same p.token token) tx.table)) [
        | inl taken ↦ rw taken (
          record { ids = c.ids; tokens = c.tokens; numbers = c.numbers; ahead = later },
          refl,
          omega arith,
        )
        | inr free ↦ rw free (elim (Bool-cases (any (λ p. p.id == id) tx.table)) [
          | inl clash ↦ rw clash (omega arith)
          | inr new ↦ rw new (
            record {
              ids = (no_id id tx.table new, c.ids);
              tokens = (no_token token tx.table free, c.tokens);
              numbers = (no_number tx.next_ticket tx.table c.ahead, c.numbers);
              ahead = (omega arith, later);
            },
            refl,
            omega arith,
            record { guest = refl; creator = refl; created = refl; unused = refl; active = refl },
          )
        ])
      ]

  module _ (draws : ℕ → Draw) where
    try_again :
        (guest_name : Text) (left : ℕ) (table : List HallPass) (n : ℕ)
        (r : Outcome CreateError (Option HallPass) × Transaction)
        → Attempted guest_name table n r
        → ((tx : Transaction)
            → IsConsistent tx
            → Attempted guest_name tx.table tx.next_ticket
                (attempts upper now invite_from created_by draws left guest_name tx))
        → Attempted guest_name table n (
            resume
              (λ created. elim created [
                | none ↦ attempts upper now invite_from created_by draws left guest_name
                | some p ↦ pure (some p)
              ])
              r.0
              r.1)
    try_again guest_name left table n (thrown e, tx') h again = h
    try_again guest_name left table n (returned none, tx') h again =
        let rest = attempts upper now invite_from created_by draws left guest_name tx' in
        subst (λ t. Attempted guest_name t n rest) h.1
          (weaken guest_name tx'.table n tx'.next_ticket rest h.2 (again tx' h.0))
    try_again guest_name left table n (returned (some p), tx') h again = h

    attempts-Attempted :
        (left : ℕ) (guest_name : Text) (tx : Transaction)
        → IsConsistent tx
        → Attempted guest_name tx.table tx.next_ticket
            (attempts upper now invite_from created_by draws left guest_name tx)
    unfolding attempts attempt
    attempts-Attempted zero guest_name tx c = (c, refl, omega arith)
    attempts-Attempted (suc left) guest_name tx c =
        try_again guest_name left tx.table tx.next_ticket
          (attempt upper now invite_from created_by draws guest_name tx)
          (insert_row-Attempted guest_name _ _ tx c) (attempts-Attempted left guest_name)

    next_guest :
        (guest_name : Text) (rest : List Text) (table : List HallPass) (n : ℕ)
        (r : Outcome CreateError (Option HallPass) × Transaction)
        → Attempted guest_name table n r
        → ((tx : Transaction)
            → IsConsistent tx
            → Batch rest tx.table tx.next_ticket
                (create_each upper now invite_from created_by draws rest tx))
        → Batch (guest_name ∷ rest) table n (
            resume
              (λ created. do
                p ← created_or_throw created
                passes ← create_each upper now invite_from created_by draws rest
                pure (p ∷ passes))
              r.0
              r.1)
    unfolding created_or_throw
    next_guest guest_name rest table n (thrown e, tx') h later = h
    next_guest guest_name rest table n (returned none, tx') h later = h.2
    next_guest guest_name rest table n (returned (some p), tx') h later =
        push (create_each upper now invite_from created_by draws rest tx') (later tx' h.0)
      where
        push :
            (r : Outcome CreateError (List HallPass) × Transaction)
            → Batch rest tx'.table tx'.next_ticket r
            → Batch (guest_name ∷ rest) table n (resume (λ passes. pure (p ∷ passes)) r.0 r.1)
        push (thrown e, tx'') b = omega arith
        push (returned ps, tx'') b =
            (b.0, b.1 ∙ ap (λ t. reverse_aux ps t) h.1, omega arith, (h.3, b.3))

    pub create_each-Batch :
        (guests : List Text) (tx : Transaction)
        → IsConsistent tx
        → Batch guests tx.table tx.next_ticket
            (create_each upper now invite_from created_by draws guests tx)
    unfolding create_each
    create_each-Batch [] tx c = (c, refl, omega arith, tt)
    create_each-Batch (guest_name ∷ rest) tx c =
        next_guest guest_name rest tx.table tx.next_ticket
          (attempts upper now invite_from created_by draws 5 guest_name tx)
          (attempts-Attempted 5 guest_name tx c) (create_each-Batch rest)
