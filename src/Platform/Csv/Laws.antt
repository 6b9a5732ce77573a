-- ===== src/Platform/Csv/Laws.antt =====
-- A table that was written is read back.
use save_the_date.Base.{
  ℕ, ◌==◌, ◌≡◌, refl, sym, ap, ◌∙◌, Bool, true, false, not, ◌||◌, List, [], ◌∷◌, ◌++◌, Text,
  trim_start, is_space, All, Bool-cases, inl, inr, Outcome, returned, thrown, arith,
}
use mathlib.Core.List.{append-nil, append_assoc}
use save_the_date.Platform.Capability.{DomainError}
use save_the_date.Platform.Csv.{
  quote, comma, newline, carriage_return, is_operator, starts_operator, is_formula, guarded,
  doubled, csv_cell, Cursor, next_is, end_row, on_quote, step, loop,
}

-- What a spreadsheet would read as a formula does not begin a guarded text.
pub guarded-is_formula : (text : Text) → is_formula (guarded text) ≡ false
unfolding guarded is_formula starts_operator is_operator trim_start is_space
guarded-is_formula text = ground arith

abbrev pub at_cell : List (List Text) → List Text → Text → Bool → Cursor
at_cell rows row cell quoted = record {
  rows = rows;
  row = row;
  cell = cell;
  quoted = quoted;
  skips = false;
}

-- Neither a quote nor a comma nor the end of a line
abbrev pub is_plain : ℕ → Bool
is_plain c = not (c == quote || c == comma || c == newline || c == carriage_return)

pub loop_next :
    (c : ℕ) (rest : Text) (k k' : Cursor)
    → step c rest k ≡ returned k'
    → loop (c ∷ rest) k ≡ loop rest k'
unfolding loop
loop_next c rest k k' e =
    ap
      (λ (r : Outcome DomainError Cursor). elim r as (λ x. Outcome DomainError (List (List Text))) [
        | returned k' ↦ loop rest k'
        | thrown e ↦ thrown e
      ])
      e

module _ (rows : List (List Text)) (row : List Text) where
  abbrev pub skipping : Text → Bool → Cursor
  skipping cell quoted = record {
    rows = rows;
    row = row;
    cell = cell;
    quoted = quoted;
    skips = true;
  }

  pub step_skips :
      (c : ℕ) (rest cell : Text) (quoted : Bool)
      → step c rest (skipping cell quoted) ≡ returned (at_cell rows row cell quoted)
  unfolding step
  step_skips c rest cell quoted = refl

  step_open :
      (rest : Text)
      → step quote rest (at_cell rows row [] false) ≡ returned (at_cell rows row [] true)
  unfolding step on_quote
  step_open rest = refl

  step_close :
      (rest cell : Text)
      → next_is quote rest ≡ false
      → step quote rest (at_cell rows row cell true) ≡ returned (at_cell rows row cell false)
  unfolding step on_quote
  step_close rest cell h = ground arith

  step_twice :
      (rest cell : Text)
      → step quote (quote ∷ rest) (at_cell rows row cell true)
        ≡ returned (skipping (cell ++ quote ∷ []) true)
  unfolding step on_quote
  step_twice rest cell = refl

  step_plain :
      (c : ℕ) (rest cell : Text)
      → c == quote ≡ false
      → step c rest (at_cell rows row cell true) ≡ returned (at_cell rows row (cell ++ c ∷ []) true)
  unfolding step
  step_plain c rest cell h = ground arith

  pub step-comma :
      (rest cell : Text)
      → step comma rest (at_cell rows row cell false)
        ≡ returned (at_cell rows (row ++ cell ∷ []) [] false)
  unfolding step
  step-comma rest cell = refl

  pub step_line :
      (rest cell : Text)
      → step carriage_return (newline ∷ rest) (at_cell rows row cell false)
        ≡ returned (end_row true (at_cell rows row cell false))
  unfolding step
  step_line rest cell = refl

  -- Within quotes a text is read as it was before its quotes were doubled.
  loop-doubled :
      (text cell rest : Text)
      → next_is quote rest ≡ false
      → loop (doubled text ++ quote ∷ rest) (at_cell rows row cell true)
        ≡ loop rest (at_cell rows row (cell ++ text) false)
  unfolding doubled
  loop-doubled [] cell rest h =
      loop_next quote rest _ _ (step_close rest cell h)
      ∙ ap (λ x. loop rest (at_cell rows row x false)) (sym (append-nil cell))
  loop-doubled (c ∷ text) cell rest h = elim (Bool-cases (c == quote)) [
    | inl hit ↦
        let is_quote : c ≡ quote = ground (arith, hit) in
        let after = doubled text ++ quote ∷ rest in
        rw hit (
          loop_next quote (quote ∷ after) _ _ (step_twice after cell)
          ∙ loop_next quote after _ _ (step_skips quote after (cell ++ quote ∷ []) true)
          ∙ loop-doubled text (cell ++ quote ∷ []) rest h
          ∙ ap (λ x. loop rest (at_cell rows row x false))
              (append_assoc cell (quote ∷ []) text ∙ ap (λ x. cell ++ x ∷ text) (sym is_quote)))
    | inr miss ↦ rw miss (
        loop_next c _ _ _ (step_plain c _ cell miss)
        ∙ loop-doubled text (cell ++ c ∷ []) rest h
        ∙ ap (λ x. loop rest (at_cell rows row x false)) (append_assoc cell (c ∷ []) text))
  ]

  -- A cell is read as its guarded text.
  pub loop-csv_cell :
      (text rest : Text)
      → next_is quote rest ≡ false
      → loop (csv_cell text ++ rest) (at_cell rows row [] false)
        ≡ loop rest (at_cell rows row (guarded text) false)
  unfolding csv_cell
  loop-csv_cell text rest h =
      loop_next quote _ _ _ (step_open _)
      ∙ ap (λ x. loop x (at_cell rows row [] true))
          (append_assoc (doubled (guarded text)) (quote ∷ []) rest)
      ∙ loop-doubled (guarded text) [] rest h

  step_field :
      (c : ℕ) (rest cell : Text)
      → is_plain c ≡ true
      → step c rest (at_cell rows row cell false)
        ≡ returned (at_cell rows row (cell ++ c ∷ []) false)
  unfolding step
  step_field c rest cell h = ground arith

  -- A field without quotes, commas and line ends is read as it is.
  pub loop-field :
      (field cell rest : Text)
      → All (λ c. is_plain c ≡ true) field
      → loop (field ++ rest) (at_cell rows row cell false)
        ≡ loop rest (at_cell rows row (cell ++ field) false)
  loop-field [] cell rest h = ap (λ x. loop rest (at_cell rows row x false)) (sym (append-nil cell))
  loop-field (c ∷ field) cell rest h =
      loop_next c _ _ _ (step_field c _ cell h.0)
      ∙ loop-field field (cell ++ c ∷ []) rest h.1
      ∙ ap (λ x. loop rest (at_cell rows row x false)) (append_assoc cell (c ∷ []) field)
