-- ===== src/Mail/Address.antt =====
-- `isLikelyEmail` of apps/web/src/lib/maileroo.ts: the regular expression
-- `^[^\s@]+@[^\s@]+\.[^\s@]+$` on the trimmed text.
pub mod Laws
use save_the_date.Base.{
  Bool, true, false, not, ◌&&◌, ◌||◌, List, [], ◌∷◌, Text, is_empty, is_space, trim, ◌==◌,
  if◌then◌else◌, ℕ,
}

-- `[^\s@]`
pub is_plain : ℕ → Bool
is_plain c = not (is_space c) && not (c == b'@')

-- The characters up to the first that is not plain, and the rest from there.
pub all_plain : Text → Bool
unfolding is_plain
all_plain [] = true
all_plain (c ∷ s) = is_plain c && all_plain s

-- A dot with something behind it.
dot_inside : Text → Bool
dot_inside [] = false
dot_inside (c ∷ s) = (c == b'.' && not (is_empty s)) || dot_inside s

-- `[^\s@]+\.[^\s@]+$`
domain_fits : Text → Bool
domain_fits [] = false
domain_fits (c ∷ s) = all_plain (c ∷ s) && dot_inside s

-- `[^\s@]+@`, of which some characters were read
local_fits : Bool → Text → Bool
local_fits some_read [] = false
local_fits some_read (c ∷ s) =
    if c == b'@' then some_read && domain_fits s else is_plain c && local_fits true s

-- `isLikelyEmail(value)`
unfoldable pub is_likely_email : Text → Bool
unfolding local_fits domain_fits dot_inside all_plain is_plain is_space trim
is_likely_email value = local_fits false (trim value)
