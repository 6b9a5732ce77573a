-- ===== src/Dashboard/Form/Laws.antt =====
-- What the form sends is not refused by the handler.
use save_the_date.Base.{
  ℕ, zero, suc, ◌≡◌, refl, ap, subst, false, Option, none, some, List, [], ◌∷◌, map, Text, trim,
  length, length-map, ◌==◌, Bool-cases, inl, inr, arith, returned,
}
use save_the_date.Mail.Address.Laws.{is_likely_email-trim}
use save_the_date.Routes.Issue.{CreateBody, trimmed, names_or, guest_names_of, wanted_of, refusal}
use save_the_date.Dashboard.Form.{
  Form, is_bulk, padded, parse_bulk_guest_names, requested_pass_count, form_error, body_of,
  send_or_show, handle_create_pass,
}

length-padded : (n : ℕ) (names : List Text) → length (padded n names) ≡ n
unfolding padded
length-padded zero names = refl
length-padded (suc n) [] = ap suc (length-padded n [])
length-padded (suc n) (x ∷ names) = ap suc (length-padded n names)

-- A list that is not empty is read name by name.
length-names_or :
    (n : ℕ) (whole : List Text) (names : List Text)
    → (n == 0) ≡ false
    → length (map trim (names_or whole (some (map some (padded n names))))) ≡ n
unfolding names_or padded
length-names_or zero whole names h = ground arith
length-names_or (suc n) whole [] h = omega (
  arith,
  length-map trim (map trimmed (map some (padded n []))),
  length-map trimmed (map some (padded n [])),
  length-map (λ s. some s) (padded n []),
  length-padded n [],
)
length-names_or (suc n) whole (x ∷ names) h = omega (
  arith,
  length-map trim (map trimmed (map some (padded n names))),
  length-map trimmed (map some (padded n names)),
  length-map (λ s. some s) (padded n names),
  length-padded n names,
)

module _ (number : Text → Option ℕ) where
  one_requested : (f : Form) → is_bulk f.generation_mode ≡ false → 1 ≡ requested_pass_count number f
  unfolding requested_pass_count
  one_requested f one = rw one refl

  -- The handler reads as many names as the form counts.
  length-guest_names_of :
      (f : Form)
      → form_error number f ≡ none
      → length (guest_names_of (body_of number f)) ≡ requested_pass_count number f
  unfolding guest_names_of body_of form_error names_or
  length-guest_names_of f e = elim (Bool-cases (is_bulk f.generation_mode)) [
    | inl in_bulk ↦ rw in_bulk (
        length-names_or (requested_pass_count number f) (f.guest_name ∷ [])
          (parse_bulk_guest_names f.bulk_guest_names) (ground arith))
    | inr one ↦ rw one (one_requested f one)
  ]

  body_accepted :
      (f : Form)
      → form_error number f ≡ none
      → let body = body_of number f in
        refusal (wanted_of body.delivery) (trimmed body.invite_from) (guest_names_of body) ≡ none
  unfolding refusal wanted_of trimmed form_error body_of
  body_accepted f e =
      ground
        (arith, length-guest_names_of f e, is_likely_email-trim f.recipient_email, one_requested f)

  -- A request that the form sends passes all tests of the handler that receives it, and the handler
  -- reads as many guest names from it as the form counts.
  pub handle_create_pass_accepted :
      (f : Form) (body : CreateBody)
      → handle_create_pass number f ≡ returned body
      → (refusal (wanted_of body.delivery) (trimmed body.invite_from) (guest_names_of body) ≡ none)
        × (length (guest_names_of body) ≡ requested_pass_count number f)
  unfolding handle_create_pass send_or_show
  handle_create_pass_accepted f body h = go (form_error number f) refl h
    where
      go :
          (o : Option Text)
          → form_error number f ≡ o
          → send_or_show number f o ≡ returned body
          → (refusal (wanted_of body.delivery) (trimmed body.invite_from) (guest_names_of body)
              ≡ none)
            × (length (guest_names_of body) ≡ requested_pass_count number f)
      go none e r =
          let sent : body_of number f ≡ body = cc r in
          subst
            (λ b.
              (refusal (wanted_of b.delivery) (trimmed b.invite_from) (guest_names_of b) ≡ none)
              × (length (guest_names_of b) ≡ requested_pass_count number f))
            sent (body_accepted f e, length-guest_names_of f e)
      go (some m) e r = cc r
