-- ===== src/Scanner/Tests.antt =====
-- The scanner at concrete texts.
use save_the_date.Base.{
  ℕ, ◌-◌, ◌+◌, ◌≤◌, ◌≡◌, refl, ap₂, List, [], ◌∷◌, map, Text, codes, is_space, All, ◌&&◌, leb,
  length, count, if◌then◌else◌, arith,
}
use save_the_date.HallPasses.Create.{create_readable_token}
use save_the_date.Scanner.Screen.{initial_screen, handle_manual_submit}
use save_the_date.Scanner.Entry.{
  first_part, second_part, enter_part, prefix_part, handle_structured_change, apply_full_token,
  apply_match, change_long, set_cleaned, clean_token_part, find_token, prefix_group, first_group,
  second_group, group, skip_separator, is_token_code,
}
use save_the_date.Scanner.Session.Laws.{is_button, play-posted-le}
use save_the_date.Scanner.Entry.Laws.{IsPlain, create_readable_token-posted}
use save_the_date.Scanner.Session.{
  Event, decoding, starting, started, opening, scanning_next, submitting, typing, play,
}

-- Upper case of ASCII
abbrev raised : ℕ → ℕ
raised c = if leb 97 c && leb c 122 then c - 32 else c

abbrev upper : Text → Text
upper s = map raised s

raised-plain : (c : ℕ) → IsPlain c → raised c ≡ c
unfolding is_token_code
raised-plain c h = ground arith

upper-plain : (t : Text) → All IsPlain t → upper t ≡ t
upper-plain [] h = refl
upper-plain (c ∷ t) h = ap₂ (λ d s. d ∷ s) (raised-plain c h.0) (upper-plain t h.1)

create_readable_token-posted_example :
    (handle_manual_submit (
      enter_part upper first_part
        (create_readable_token (0 ∷ 31 ∷ 32 ∷ 255 ∷ 8 ∷ 24 ∷ 1 ∷ 2 ∷ []))
        initial_screen)).posted
    ≡ create_readable_token (0 ∷ 31 ∷ 32 ∷ 255 ∷ 8 ∷ 24 ∷ 1 ∷ 2 ∷ []) ∷ []
create_readable_token-posted_example =
    create_readable_token-posted upper upper-plain 0 31 32 255 8 24 1 2 first_part initial_screen
      (omega arith)

-- The camera reads a code three times before the next scan is opened.
abbrev events : List Event
events =
    opening
    ∷ starting
    ∷ started
    ∷ decoding (codes "HP-A9A9-J2BC")
    ∷ decoding (codes "HP-A9A9-J2BC")
    ∷ decoding (codes "HP-A9A9-J2BC")
    ∷ scanning_next
    ∷ decoding (codes "HP-B9A9-J2BC")
    ∷ typing second_part (codes "j2bc")
    ∷ submitting
    ∷ []

play-posted-le_example :
    length (play upper events initial_screen).posted ≤ 0 + 1 + count is_button events
play-posted-le_example = play-posted-le upper events initial_screen

-- The field of the prefix cuts a whole token off at ten codes, and takes its first two.
cut_off :
    (enter_part upper prefix_part (codes "HP-A9A9-J2BC") initial_screen).manual_parts.prefix
    ≡ codes "HP"
unfolding enter_part handle_structured_change apply_full_token apply_match change_long set_cleaned
    clean_token_part find_token prefix_group first_group second_group group skip_separator
    is_token_code is_space
cut_off = refl
