-- ===== src/Scanner/Entry/Laws.antt =====
-- A token that the server made goes through the fields of the scanner unchanged.
use save_the_date.Base.{
  ℕ, ◌≤◌, take, ◌≡◌, refl, ap, ◌∙◌, true, false, ◌||◌, some, [], ◌∷◌, Text, All, ◌==◌, arith,
  coalesce, trim, trim_start, is_space,
}
use save_the_date.HallPasses.Create.{create_readable_token, letter}
use save_the_date.HallPasses.Create.Shape.{letter-All, create_readable_token-letters}
use save_the_date.Scanner.Screen.{Screen, redeem_qr_value, handle_manual_submit}
use save_the_date.Scanner.Entry.{
  Part, prefix_part, first_part, second_part, field_limit, enter_part, is_token_code, group,
  skip_separator, second_group, first_group, prefix_group, find_token, apply_match,
  apply_full_token, change_long, handle_structured_change,
}

-- A code of a token: a letter or a digit, or a dash
abbrev pub IsPlain : ℕ → Type 0
IsPlain c = (is_token_code c || c == 45) ≡ true

abbrev token_text : ℕ → ℕ → ℕ → ℕ → ℕ → ℕ → ℕ → ℕ → Text
token_text a b c d e f g h = b'H' ∷ b'P' ∷ b'-' ∷ a ∷ b ∷ c ∷ d ∷ b'-' ∷ e ∷ f ∷ g ∷ h ∷ []

letter-is_token_code : (byte : ℕ) → is_token_code (letter byte) ≡ true
unfolding is_token_code
letter-is_token_code byte = letter-All (λ c. is_token_code c ≡ true) byte (ground arith)

not_space : (c : ℕ) → is_token_code c ≡ true → is_space c ≡ false
unfolding is_token_code is_space
not_space c h = ground arith

capital_not_space : is_space b'H' ≡ false
unfolding is_space
capital_not_space = refl

group-four :
    (a b c d : ℕ) (rest : Text)
    → is_token_code a ≡ true
    → is_token_code b ≡ true
    → is_token_code c ≡ true
    → is_token_code d ≡ true
    → group 4 (a ∷ b ∷ c ∷ d ∷ rest) ≡ some (a ∷ b ∷ c ∷ d ∷ [], rest)
unfolding group
group-four a b c d rest ha hb hc hd = ground arith

whole_token :
    (part : Part)
    → 12 ≤ field_limit part
    → (a b c d e f g h : ℕ)
    → take (field_limit part) (token_text a b c d e f g h) ≡ token_text a b c d e f g h
whole_token prefix_part wide a b c d e f g h = absurd (let e : 12 ≤ 10 = wide in omega arith)
whole_token first_part wide a b c d e f g h = refl
whole_token second_part wide a b c d e f g h = refl

module _ (a b c d e f g h : ℕ) (ha : is_token_code a ≡ true) (hb : is_token_code b ≡ true)
    (hc : is_token_code c ≡ true) (hd : is_token_code d ≡ true) (he : is_token_code e ≡ true)
    (hf : is_token_code f ≡ true) (hg : is_token_code g ≡ true) (hh : is_token_code h ≡ true) where
  token_text-IsPlain : All IsPlain (token_text a b c d e f g h)
  unfolding is_token_code
  token_text-IsPlain = ground arith

  find_token-token_text :
      find_token (token_text a b c d e f g h)
      ≡ some (record {
        prefix = b'H' ∷ b'P' ∷ [];
        first = a ∷ b ∷ c ∷ d ∷ [];
        second = e ∷ f ∷ g ∷ h ∷ [];
      })
  unfolding find_token prefix_group first_group second_group group skip_separator is_token_code
  find_token-token_text =
      let p = b'H' ∷ b'P' ∷ [] in
      let later = b'-' ∷ e ∷ f ∷ g ∷ h ∷ [] in
      ap (λ o. coalesce o (find_token (b'P' ∷ b'-' ∷ a ∷ b ∷ c ∷ d ∷ later)))
        (ap (first_group p) (group-four a b c d later ha hb hc hd)
          ∙ ap (second_group p (a ∷ b ∷ c ∷ d ∷ [])) (group-four e f g h [] he hf hg hh))

  abbrev shown : Screen → Screen
  shown s = record s {
    manual_parts = record {
      prefix = b'H' ∷ b'P' ∷ [];
      first = a ∷ b ∷ c ∷ d ∷ [];
      second = e ∷ f ∷ g ∷ h ∷ [];
    };
    fallback_value = [];
    use_fallback_entry = false;
  }

  token_text-shown :
      (upper : Text → Text) (part : Part) (s : Screen)
      → upper (token_text a b c d e f g h) ≡ token_text a b c d e f g h
      → handle_structured_change upper part (token_text a b c d e f g h) s ≡ shown s
  unfolding handle_structured_change apply_full_token apply_match change_long
  token_text-shown upper prefix_part s kept = rw (kept, find_token-token_text) refl
  token_text-shown upper first_part s kept = rw (kept, find_token-token_text) refl
  token_text-shown upper second_part s kept = rw (kept, find_token-token_text) refl

  -- What the fields show is sent.
  shown-posted :
      (s : Screen) → (handle_manual_submit (shown s)).posted ≡ token_text a b c d e f g h ∷ s.posted
  unfolding handle_manual_submit redeem_qr_value trim trim_start
  shown-posted s = rw (capital_not_space, not_space h hh) refl

  token_text-posted :
      (upper : Text → Text) (part : Part) (s : Screen)
      → ((t : Text) → All IsPlain t → upper t ≡ t)
      → (handle_manual_submit
          (handle_structured_change upper part (token_text a b c d e f g h) s)).posted
        ≡ token_text a b c d e f g h ∷ s.posted
  token_text-posted upper part s kept =
      ap (λ v. (handle_manual_submit v).posted)
        (token_text-shown upper part s (kept (token_text a b c d e f g h) token_text-IsPlain))
      ∙ shown-posted s

-- Where upper case leaves capitals, digits and dashes alone: a token that createReadableToken made
-- of eight bytes, put into a field that does not cut it off at fewer than twelve codes, is what the
-- form then sends.
pub create_readable_token-posted :
    (upper : Text → Text)
    → ((t : Text) → All IsPlain t → upper t ≡ t)
    → (a b c d e f g h : ℕ) (part : Part) (s : Screen) → 12 ≤ field_limit part
    → let token : Text = create_readable_token (a ∷ b ∷ c ∷ d ∷ e ∷ f ∷ g ∷ h ∷ []) in
      (handle_manual_submit (enter_part upper part token s)).posted ≡ token ∷ s.posted
unfolding enter_part
create_readable_token-posted upper kept a b c d e f g h part s wide =
    rw (create_readable_token-letters a b c d e f g h) (
      rw
        (whole_token part wide (letter a) (letter b) (letter c) (letter d) (letter e) (letter f)
          (letter g) (letter h))
        (token_text-posted (letter a) (letter b) (letter c) (letter d) (letter e) (letter f)
          (letter g) (letter h) (letter-is_token_code a) (letter-is_token_code b)
          (letter-is_token_code c) (letter-is_token_code d) (letter-is_token_code e)
          (letter-is_token_code f) (letter-is_token_code g) (letter-is_token_code h) upper part s
          kept))
