-- ===== src/Platform/Csv/Tables.antt =====
-- Rows and tables that were written are read back.
use save_the_date.Base.{
  suc, ◌≡◌, refl, sym, subst, ap, ◌∙◌, Bool, true, false, List, [], ◌∷◌, ◌++◌, map, Text, filter,
  length, All, All-every, Bool-cases, inl, inr, if◌then◌else◌, ltb, Outcome, returned, thrown,
}
use mathlib.Core.List.{append-nil, append_assoc}
use save_the_date.Platform.Capability.{DomainError}
use save_the_date.Platform.Csv.{
  quote, comma, newline, carriage_return, is_formula, guarded, csv_cell, join, csv_row, csv_table,
  csv_too_large, next_is, has_text, rows_with, end_row, finish, loop, parse_csv,
}
use save_the_date.Platform.Csv.Laws.{
  at_cell, is_plain, loop_next, step_skips, step-comma, step_line, loop-csv_cell, loop-field,
  guarded-is_formula,
}

-- How the loop stands after the cells of a row, before what ends it
abbrev AtEnd : List (List Text) → List Text → Text → Text → List Text → Text → Type 0
AtEnd rows pre written rest row cell =
    loop (written ++ rest) (at_cell rows pre [] false) ≡ loop rest (at_cell rows row cell false)

-- The row and the last cell that the loop holds are the cells that were written.
abbrev Reads : List (List Text) → List Text → Text → Text → List Text → Type 0
Reads rows pre written rest cells =
    (row : List Text) × (cell : Text) × (row ++ cell ∷ [] ≡ pre ++ cells)
    × AtEnd rows pre written rest row cell

-- Cells in a row, each by a way of writing it that is read back
module _ (write read : Text → Text) (Fits : Text → Type 0)
    (read_back : (rows : List (List Text)) (row : List Text) (text rest : Text)
      → Fits text
      → next_is quote rest ≡ false
      → loop (write text ++ rest) (at_cell rows row [] false)
        ≡ loop rest (at_cell rows row (read text) false)) where
  loop-join :
      (rows : List (List Text)) (pre : List Text) (c : Text) (cs : List Text) (rest : Text)
      → All Fits (c ∷ cs)
      → next_is quote rest ≡ false
      → Reads rows pre (join (comma ∷ []) (map write (c ∷ cs))) rest (map read (c ∷ cs))
  unfolding join
  loop-join rows pre c [] rest fits h = (pre, read c, refl, read_back rows pre c rest fits.0 h)
  loop-join rows pre c (d ∷ cs) rest fits h =
      let more = join (comma ∷ []) (map write (d ∷ cs)) in
      let (row, cell, whole, ends) = loop-join rows (pre ++ read c ∷ []) d cs rest fits.1 h in
      (
        row,
        cell,
        whole ∙ append_assoc pre (read c ∷ []) (map read (d ∷ cs)),
        ap (λ x. loop x (at_cell rows pre [] false)) (append_assoc (write c) (comma ∷ more) rest)
            ∙ read_back rows pre c (comma ∷ more ++ rest) fits.0 refl
            ∙ loop_next comma (more ++ rest) _ _ (step-comma rows pre (more ++ rest) (read c))
            ∙ ends,
      )

-- The rows with text
abbrev kept : List Text → List (List Text)
kept row = if has_text row then row ∷ [] else []

keep :
    (rows : List (List Text)) (row : List Text)
    → (if has_text row then rows ++ row ∷ [] else rows) ≡ rows ++ kept row
keep rows row = elim (Bool-cases (has_text row)) [
  | inl some_text ↦ rw some_text
  | inr blank ↦ rw (blank, append-nil rows)
]

-- The loop after a row that was written, at the end of its line
ReadRow : List (List Text) → Text → Text → List Text → Type 0
ReadRow rows written rest read =
    (row : List Text) × (cell : Text) × (rows_with (at_cell rows row cell false)
      ≡ rows ++ kept read)
    × AtEnd rows [] written rest row cell

read_row :
    (rows : List (List Text)) (written rest : Text) (cells : List Text)
    → Reads rows [] written rest cells
    → ReadRow rows written rest cells
unfolding rows_with ReadRow
read_row rows written rest cells (row, cell, whole, ends) =
    (row, cell, rw whole (keep rows cells), ends)

loop-csv_row :
    (rows : List (List Text)) (cells : List Text) (rest : Text)
    → next_is quote rest ≡ false
    → ReadRow rows (csv_row cells) rest (map guarded cells)
unfolding csv_row join ReadRow rows_with
loop-csv_row rows [] rest h = ([], [], sym (append-nil rows), refl)
loop-csv_row rows (c ∷ cs) rest h = read_row rows (csv_row (c ∷ cs)) rest (map guarded (c ∷ cs)) (
    loop-join csv_cell guarded (λ t. Unit {0}) (λ rows row t rest u. loop-csv_cell rows row t rest)
      rows [] c cs rest (All-every (λ t. tt) (c ∷ cs)) h)

map_same : (fs : List Text) → map (λ t. t) fs ≡ fs
map_same [] = refl
map_same (f ∷ fs) = ap (λ x. f ∷ x) (map_same fs)

loop-fields :
    (rows : List (List Text)) (fields : List Text) (rest : Text)
    → All (All (λ c. is_plain c ≡ true)) fields
    → next_is quote rest ≡ false
    → ReadRow rows (join (comma ∷ []) fields) rest fields
unfolding join ReadRow rows_with
loop-fields rows [] rest plain h = ([], [], sym (append-nil rows), refl)
loop-fields rows (f ∷ fs) rest plain h = read_row rows (join (comma ∷ []) (f ∷ fs)) rest (f ∷ fs) (
    subst (λ x. Reads rows [] (join (comma ∷ []) x) rest x) (map_same (f ∷ fs))
      (loop-join (λ t. t) (λ t. t) (All (λ c. is_plain c ≡ true))
        (λ rows row t rest fits u. loop-field rows row t [] rest fits) rows [] f fs rest plain h))

-- What the loop answers at its end
abbrev finished : List (List Text) → Outcome DomainError (List (List Text))
finished rows = if ltb 1001 (length rows) then thrown csv_too_large else returned rows

finish_lem :
    (rows : List (List Text)) (row : List Text) (cell : Text) (read : List (List Text))
    → rows_with (at_cell rows row cell false) ≡ read
    → finish (at_cell rows row cell false) ≡ finished read
unfolding finish
finish_lem rows row cell read e = ap finished e

-- The end of a line
loop-line :
    (rows : List (List Text)) (row : List Text) (cell rest : Text)
    → loop (carriage_return ∷ newline ∷ rest) (at_cell rows row cell false)
      ≡ loop rest (at_cell (rows_with (at_cell rows row cell false)) [] [] false)
unfolding end_row
loop-line rows row cell rest =
    loop_next carriage_return (newline ∷ rest) _ _ (step_line rows row rest cell)
    ∙ loop_next newline rest _ _ (step_skips _ [] newline rest [] false)

abbrev line_end : Text
line_end = carriage_return ∷ newline ∷ []

kept-filter :
    (rows : List (List Text)) (row : List Text) (more : List (List Text))
    → (rows ++ kept row) ++ filter has_text more ≡ rows ++ filter has_text (row ∷ more)
kept-filter rows row more = elim (Bool-cases (has_text row)) [
  | inl some_text ↦ rw some_text (append_assoc rows (row ∷ []) (filter has_text more))
  | inr blank ↦ rw blank (ap (λ x. x ++ filter has_text more) (append-nil rows))
]

-- A row and the lines after it
after_row :
    (rows : List (List Text)) (written rest : Text) (read : List Text) (more : List (List Text))
    → ReadRow rows written (line_end ++ rest) read
    → ((rows : List (List Text))
        → loop rest (at_cell rows [] [] false) ≡ finished (rows ++ filter has_text more))
    → loop (written ++ (line_end ++ rest)) (at_cell rows [] [] false)
      ≡ finished (rows ++ filter has_text (read ∷ more))
unfolding ReadRow
after_row rows written rest read more (row, cell, held, ends) h =
    ends
    ∙ loop-line rows row cell rest
    ∙ ap (λ x. loop rest (at_cell x [] [] false)) held
    ∙ h (rows ++ kept read)
    ∙ ap finished (kept-filter rows read more)

-- The last row
last_row :
    (rows : List (List Text)) (written : Text) (read : List Text)
    → ReadRow rows written [] read
    → loop written (at_cell rows [] [] false) ≡ finished (rows ++ filter has_text (read ∷ []))
unfolding ReadRow loop
last_row rows written read (row, cell, held, ends) =
    ap (λ x. loop x (at_cell rows [] [] false)) (sym (append-nil written))
    ∙ ends
    ∙ finish_lem rows row cell (rows ++ kept read) held
    ∙ ap finished (sym (append-nil (rows ++ kept read)) ∙ kept-filter rows read [])

loop-rows :
    (rows : List (List Text)) (more : List (List Text))
    → loop (join line_end (map csv_row more)) (at_cell rows [] [] false)
      ≡ finished (rows ++ filter has_text (map (map guarded) more))
unfolding join ReadRow rows_with
loop-rows rows [] = last_row rows [] [] ([], [], sym (append-nil rows), refl)
loop-rows rows (r ∷ []) = last_row rows (csv_row r) (map guarded r) (loop-csv_row rows r [] refl)
loop-rows rows (r ∷ s ∷ more) =
    after_row rows (csv_row r) (join line_end (map csv_row (s ∷ more))) (map guarded r)
      (map (map guarded) (s ∷ more))
      (loop-csv_row rows r (line_end ++ join line_end (map csv_row (s ∷ more))) refl)
      λ rows'. loop-rows rows' (s ∷ more)

inert_row : (cells : List Text) → All (λ c. is_formula c ≡ false) (map guarded cells)
inert_row [] = tt
inert_row (c ∷ cs) = (guarded-is_formula c, inert_row cs)

inert_rows :
    (rows : List (List Text))
    → All (All (λ c. is_formula c ≡ false)) (filter has_text (map (map guarded) rows))
inert_rows [] = tt
inert_rows (r ∷ rs) = elim (Bool-cases (has_text (map guarded r))) [
  | inl some_text ↦ rw some_text (inert_row r, inert_rows rs)
  | inr blank ↦ rw blank (inert_rows rs)
]

-- A table that is written under a line of fields, none of which has a quote, a comma or a line end,
-- and not all of which are empty, is read back as the fields and the guarded rows, less those
-- without text; where these are more than 1001 rows in all, it is refused. No cell of the guarded
-- rows begins with what a spreadsheet reads as a formula.
pub parse_csv-csv_table :
    (fields : List Text) (rows : List (List Text))
    → All (All (λ c. is_plain c ≡ true)) fields
    → has_text fields ≡ true
    → let read = filter has_text (map (map guarded) rows) in
      (parse_csv (csv_table fields rows)
        ≡ (if ltb 1001 (suc (length read)) then thrown csv_too_large else returned (fields ∷ read)))
      × All (All (λ c. is_formula c ≡ false)) read
unfolding parse_csv csv_table
parse_csv-csv_table fields rows plain some_text = (
  after_row [] (join (comma ∷ []) fields) (join line_end (map csv_row rows)) fields
        (map (map guarded) rows)
        (loop-fields [] fields (line_end ++ join line_end (map csv_row rows)) plain refl)
        (λ read. loop-rows read rows)
      ∙ ap
          (λ (b : Bool). finished (
            if b
            then fields ∷ filter has_text (map (map guarded) rows)
            else filter has_text (map (map guarded) rows)))
          some_text,
  inert_rows rows,
)
