-- ===== src/Media/Names.antt =====
-- Names of files: `humanizeFilename` of apps/web/src/lib/cloudinaryMedia.ts (the same in
-- apps/web/src/lib/r2.ts) and `sanitizeVideoFilename` of apps/web/src/lib/r2.ts, each regular
-- expression by a function that does what `replace` does with it. `toLowerCase` and `normalize` are
-- parameters.
pub mod Laws
use mathlib.Core.List.{reverse}
use save_the_date.Base.{
  ℕ, ◌-◌, Bool, true, false, not, ◌&&◌, ◌||◌, Option, none, some, List, [], ◌∷◌, ◌++◌, Text, codes,
  same, is_empty, is_space, trim, filter, any, take, leb, ◌==◌, if◌then◌else◌,
}

-- `/\.[^.]+$/` matches from the first character on: a dot, and then no other to the end.
is_extension : Text → Bool
is_extension [] = false
is_extension (c ∷ s) = c == b'.' && not (is_empty s) && not (any (λ d. d == b'.') s)

-- `.replace(/\.[^.]+$/, "")`
pub drop_extension : Text → Text
drop_extension [] = []
drop_extension (c ∷ s) =
    let rest = drop_extension s in if is_extension (c ∷ s) then [] else c ∷ rest

-- `.replace(/[…]+/g, by)` for a class of characters: a run becomes `by`. The flag says whether the
-- character before was in the run.
runs_after : (ℕ → Bool) → ℕ → Bool → Text → Text
runs_after class by within [] = []
runs_after class by within (c ∷ s) =
    let inside = runs_after class by true s in
    let outside = runs_after class by false s in
    if class c then if within then inside else by ∷ inside else c ∷ outside

pub replace_runs : (ℕ → Bool) → ℕ → Text → Text
unfolding runs_after
replace_runs class by s = runs_after class by false s

is_hyphen : ℕ → Bool
is_hyphen c = c == b'-'

is_hyphen_or_low_line : ℕ → Bool
is_hyphen_or_low_line c = c == b'-' || c == b'_'

unfoldable pub is_lower : ℕ → Bool
is_lower c = leb b'a' c && leb c b'z'

pub is_upper : ℕ → Bool
is_upper c = leb b'A' c && leb c b'Z'

unfoldable pub is_digit : ℕ → Bool
is_digit c = leb b'0' c && leb c b'9'

-- `\w`
is_word : ℕ → Bool
is_word c = is_lower c || is_upper c || is_digit c || c == b'_'

-- `toUpperCase` on a character of `\w`
capital : ℕ → ℕ
capital c = if is_lower c then c - 32 else c

-- `.replace(/\b\w/g, …)`: the flag says whether the character before is one of `\w`.
capitals_after : Bool → Text → Text
capitals_after within [] = []
capitals_after within (c ∷ s) =
    let rest = capitals_after (is_word c) s in
    if is_word c && not within then capital c ∷ rest else c ∷ rest

-- `humanizeFilename(value)`
pub humanize_filename : Text → Text
humanize_filename value =
    capitals_after false (
      trim
        (replace_runs is_space 32 (replace_runs is_hyphen_or_low_line 32 (drop_extension value))))

-- `[a-zA-Z0-9_-]`
pub is_plain_name : ℕ → Bool
is_plain_name c = is_lower c || is_upper c || is_digit c || c == b'_' || c == b'-'

-- `[\u0300-\u036f]`
is_combining : ℕ → Bool
is_combining c = leb 0x300 c && leb c 0x36f

-- `.replace(/^-+|-+$/g, "")`
drop_hyphens : Text → Text
drop_hyphens [] = []
drop_hyphens (c ∷ s) = if is_hyphen c then drop_hyphens s else c ∷ s

strip_hyphens : Text → Text
strip_hyphens s = reverse (drop_hyphens (reverse (drop_hyphens s)))

pub starts_with : Text → Text → Bool
starts_with [] s = true
starts_with (p ∷ ps) [] = false
starts_with (p ∷ ps) (c ∷ s) = p == c && starts_with ps s

pub ends_with : Text → Text → Bool
unfolding starts_with
ends_with suffix s = starts_with (reverse suffix) (reverse s)

module _ (lower nfkd : Text → Text) where
  -- The chain of `replace` calls, before `toLowerCase`.
  plain_name : Text → Text
  plain_name filename = replace_runs is_hyphen b'-' (
      strip_hyphens (
        replace_runs (λ c. not (is_plain_name c)) b'-'
          (filter (λ c. not (is_combining c)) (nfkd (drop_extension filename)))))

  basename : Text → Text
  basename filename = lower (plain_name filename)

  -- `sanitizeVideoFilename(filename)`
  unfoldable pub sanitize_video_filename : Text → Option Text
  unfolding basename plain_name replace_runs runs_after strip_hyphens drop_hyphens is_hyphen
      is_plain_name is_lower is_upper is_digit is_combining drop_extension is_extension ends_with
      starts_with
  sanitize_video_filename filename =
      if not (is_empty (basename filename)) && ends_with (codes ".mp4") (lower filename)
      then some (basename filename ++ codes ".mp4")
      else none
