-- ===== src/Platform/Csv.antt =====
-- Tables as text: `csvCell` and `parseCsv` of packages/persistence/src/guests.ts, and how
-- `csvExport` and `rsvpExport` put a table together.
pub mod Laws
pub mod Tables
use save_the_date.Base.{
  ℕ, suc, ◌==◌, ◌<◌, Bool, true, false, not, ◌&&◌, ◌||◌, Option, none, some, List, [], ◌∷◌, ◌++◌,
  map, Text, codes, is_empty, any, length, trim_start, if◌then◌else◌, ltb, Outcome, returned,
  thrown,
}
use save_the_date.Platform.Capability.{DomainError}

abbrev pub quote : ℕ
quote = 34

abbrev pub comma : ℕ
comma = 44

abbrev pub newline : ℕ
newline = 10

abbrev pub carriage_return : ℕ
carriage_return = 13

-- `[=+\-@]`
unfoldable pub is_operator : ℕ → Bool
is_operator c = c == 61 || c == 43 || c == 45 || c == 64

unfoldable pub starts_operator : Text → Bool
starts_operator [] = false
starts_operator (c ∷ s) = is_operator c

-- `/^\s*[=+\-@]/.test(text)`
unfoldable pub is_formula : Text → Bool
is_formula text = starts_operator (trim_start text)

-- The text with an apostrophe before what a spreadsheet would read as a formula
unfoldable pub guarded : Text → Text
guarded text = if is_formula text then 39 ∷ text else text

-- `replaceAll('"', '""')`
unfoldable pub doubled : Text → Text
doubled [] = []
doubled (c ∷ s) = if c == quote then quote ∷ quote ∷ doubled s else c ∷ doubled s

-- `csvCell(value)` of a string
unfoldable pub csv_cell : Text → Text
csv_cell text = quote ∷ doubled (guarded text) ++ quote ∷ []

-- `join(separator)`
unfoldable pub join : Text → List Text → Text
join separator [] = []
join separator (s ∷ []) = s
join separator (s ∷ t ∷ rest) = s ++ (separator ++ join separator (t ∷ rest))

unfoldable pub csv_row : List Text → Text
csv_row cells = join (comma ∷ []) (map csv_cell cells)

-- `fields.join(',') + '\r\n' + rows.map(…).join('\r\n')`
unfoldable pub csv_table : List Text → List (List Text) → Text
csv_table fields rows =
    join (comma ∷ []) fields
    ++ carriage_return ∷ newline ∷ join (carriage_return ∷ newline ∷ []) (map csv_row rows)

-- The variables of the loop; `skips` is an index that the body moves past the next code unit.
pub record Cursor : Type 0 where
  pub rows : List (List Text)
  pub row : List Text
  pub cell : Text
  pub quoted : Bool
  pub skips : Bool

abbrev pub csv_invalid : DomainError
csv_invalid = record { status = 400; error_code = codes "CSV_INVALID" }

abbrev pub csv_too_large : DomainError
csv_too_large = record { status = 400; error_code = codes "CSV_TOO_LARGE" }

abbrev pub next_is : ℕ → Text → Bool
next_is c [] = false
next_is c (d ∷ rest) = d == c

-- `row.some(c => c)`
abbrev pub has_text : List Text → Bool
has_text row = any (λ c. not (is_empty c)) row

-- `row.push(cell); if (row.some(c => c)) rows.push(row)`
unfoldable pub rows_with : Cursor → List (List Text)
rows_with k = let row = k.row ++ k.cell ∷ [] in if has_text row then k.rows ++ row ∷ [] else k.rows

unfoldable pub end_row : Bool → Cursor → Cursor
end_row skips k = record { rows = rows_with k; row = []; cell = []; quoted = false; skips = skips }

-- The branch `ch === '"'`
unfoldable pub on_quote : Text → Cursor → Outcome DomainError Cursor
on_quote rest k =
    if k.quoted && next_is quote rest
    then returned (record k { cell = k.cell ++ quote ∷ []; skips = true })
    else if is_empty k.cell || k.quoted
    then returned (record k { quoted = not k.quoted })
    else thrown csv_invalid

-- The body of the loop at a code unit, with those that follow
unfoldable pub step : ℕ → Text → Cursor → Outcome DomainError Cursor
step c rest k =
    if k.skips
    then returned (record k { skips = false })
    else if c == quote
    then on_quote rest k
    else if c == comma && not k.quoted
    then returned (record k { row = k.row ++ k.cell ∷ []; cell = [] })
    else if (c == newline || c == carriage_return) && not k.quoted
    then returned (end_row (c == carriage_return && next_is newline rest) k)
    else returned (record k { cell = k.cell ++ c ∷ [] })

unfoldable pub finish : Cursor → Outcome DomainError (List (List Text))
finish k =
    if k.quoted
    then thrown csv_invalid
    else if ltb 1001 (length (rows_with k))
    then thrown csv_too_large
    else returned (rows_with k)

unfoldable pub loop : Text → Cursor → Outcome DomainError (List (List Text))
loop [] k = finish k
loop (c ∷ rest) k = elim (step c rest k) [ returned k' ↦ loop rest k' | thrown e ↦ thrown e ]

-- `parseCsv(csv)`
unfoldable pub parse_csv : Text → Outcome DomainError (List (List Text))
parse_csv csv = loop csv (record { rows = []; row = []; cell = []; quoted = false; skips = false })
