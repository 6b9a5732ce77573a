-- ===== src/Scanner/Entry.antt =====
-- Typing and pasting a token: `cleanTokenPart`, `applyFullToken` and `handleStructuredChange`.
-- `upper` is `String.prototype.toUpperCase`.
pub mod Laws
use save_the_date.Base.{
  ℕ, zero, suc, ◌+◌, Bool, true, false, not, ◌&&◌, ◌||◌, Option, none, some, List, [], ◌∷◌, ◌++◌,
  Text, codes, same, is_empty, is_space, filter, take, length, leb, ltb, ◌==◌, if◌then◌else◌,
  coalesce,
}
use save_the_date.Scanner.Screen.{ManualParts, Screen}

-- `[A-Z0-9]`
unfoldable pub is_token_code : ℕ → Bool
is_token_code c = (leb 65 c && leb c 90) || (leb 48 c && leb c 57)

abbrev pub before : ℕ → Option (Text × Text) → Option (Text × Text)
before c none = none
before c (some (s, rest)) = some (c ∷ s, rest)

-- `([A-Z0-9]{n})`: the group, and the text after it
unfoldable pub group : ℕ → Text → Option (Text × Text)
group zero s = some ([], s)
group (suc n) [] = none
group (suc n) (c ∷ s) = if is_token_code c then before c (group n s) else none

-- `[-\s]?`; a separator is no token code, so that there is nothing to try again.
unfoldable pub skip_separator : Text → Text
skip_separator [] = []
skip_separator (c ∷ s) = if c == 45 || is_space c then s else c ∷ s

unfoldable pub second_group : Text → Text → Option (Text × Text) → Option ManualParts
second_group p f none = none
second_group p f (some (g, rest)) = some (record { prefix = p; first = f; second = g })

unfoldable pub first_group : Text → Option (Text × Text) → Option ManualParts
first_group p none = none
first_group p (some (f, rest)) = second_group p f (group 4 (skip_separator rest))

unfoldable pub prefix_group : Option (Text × Text) → Option ManualParts
prefix_group none = none
prefix_group (some (p, rest)) = first_group p (group 4 (skip_separator rest))

-- The first place at which the regular expression matches
unfoldable pub find_token : Text → Option ManualParts
find_token [] = none
find_token (c ∷ s) = coalesce (prefix_group (group 2 (c ∷ s))) (find_token s)

pub data Part : Type 0 where
  prefix_part first_part second_part : Part

-- The `maxLength` that the field hands over
abbrev pub max_length : Part → ℕ
max_length prefix_part = 2
max_length first_part = 4
max_length second_part = 4

abbrev pub set_part : Part → Text → ManualParts → ManualParts
set_part prefix_part v p = record p { prefix = v }
set_part first_part v p = record p { first = v }
set_part second_part v p = record p { second = v }

module _ (upper : Text → Text) where
  -- `cleanTokenPart(value, maxLength)`
  unfoldable pub clean_token_part : Text → ℕ → Text
  clean_token_part value n = take n (filter is_token_code (upper value))

  unfoldable pub apply_match : Screen → Option ManualParts → Option Screen
  apply_match s none = none
  apply_match s (some parts) =
      some (record s { manual_parts = parts; fallback_value = []; use_fallback_entry = false })

  -- `applyFullToken(value)`: the state after it where it answers true
  unfoldable pub apply_full_token : Text → Screen → Option Screen
  apply_full_token value s = apply_match s (find_token (upper value))

  unfoldable pub set_cleaned : Part → Text → Screen → Screen
  set_cleaned part value s = record s {
    manual_parts = set_part part (clean_token_part value (max_length part)) s.manual_parts;
  }

  unfoldable pub change_long : Part → Text → Screen → Option Screen → Screen
  change_long part value s (some s') = s'
  change_long part value s none = set_cleaned part value s

  -- `handleStructuredChange(part, maxLength)`
  unfoldable pub handle_structured_change : Part → Text → Screen → Screen
  handle_structured_change part value s =
      if ltb (max_length part) (length value)
      then change_long part value s (apply_full_token value s)
      else set_cleaned part value s

  -- The field of the raw value
  unfoldable pub handle_fallback_change : Text → Screen → Screen
  handle_fallback_change value s = record s { fallback_value = upper value }

-- The attribute `maxLength` of the field, which the browser cuts what is typed or pasted off at
abbrev pub field_limit : Part → ℕ
field_limit prefix_part = 10
field_limit first_part = 12
field_limit second_part = 12

-- What `onChange` makes of a text that is put into an empty field
unfoldable pub enter_part : (Text → Text) → Part → Text → Screen → Screen
enter_part upper part value s =
    handle_structured_change upper part (take (field_limit part) value) s
