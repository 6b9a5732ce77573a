-- ===== src/Mail/Escape/Laws.antt =====
-- Escaped text: five replacements in a row against one pass, and what escaped text cannot hold.
use mathlib.Core.List.{append_assoc}
use save_the_date.Base.{
  subst, ap₂, ℕ, ◌≡◌, refl, ◌≢◌, sym, ap, ◌∙◌, [], ◌∷◌, ◌++◌, arith, Text, codes, ◌==◌,
  if◌then◌else◌, All, All-append,
}
use save_the_date.Mail.Escape.{replace_all, escape_html}

-- The entity of a code unit, or the unit itself.
abbrev pub entity : ℕ → Text
entity c =
    if c == b'&'
    then codes "&amp;"
    else if c == b'<'
    then codes "&lt;"
    else if c == b'>'
    then codes "&gt;"
    else if c == b'"'
    then codes "&quot;"
    else if c == 39
    then codes "&#039;"
    else c ∷ []

abbrev pub entities : Text → Text
entities [] = []
entities (c ∷ s) = entity c ++ entities s

replace_all-append :
    (c : ℕ) (text s t : Text)
    → replace_all c text (s ++ t) ≡ replace_all c text s ++ replace_all c text t
unfolding replace_all
replace_all-append c text [] t = refl
replace_all-append c text (d ∷ s) t =
    ap (λ r. (if d == c then text else d ∷ []) ++ r) (replace_all-append c text s t)
    ∙ sym (append_assoc _ (replace_all c text s) (replace_all c text t))

escape_html-append : (s t : Text) → escape_html (s ++ t) ≡ escape_html s ++ escape_html t
unfolding escape_html
escape_html-append s t = simp replace_all-append

escape_one : (c : ℕ) → escape_html (c ∷ []) ≡ entity c
unfolding escape_html replace_all
escape_one c = ground arith

-- The five replacements, one after the other, are one pass that puts the entity of every special
-- character in its place: no entity is escaped again.
pub escape_html-entities : (s : Text) → escape_html s ≡ entities s
escape_html-entities [] = unfold escape_html replace_all in refl
escape_html-entities (c ∷ s) =
    escape_html-append (c ∷ []) s ∙ ap₂ (λ a b. a ++ b) (escape_one c) (escape_html-entities s)

-- A code unit that can stand between tags and inside a quoted attribute.
abbrev pub IsInert : ℕ → Type 0
IsInert c = (c ≢ b'<') × (c ≢ b'>') × (c ≢ b'"') × (c ≢ 39)

entity-IsInert : (c : ℕ) → All IsInert (entity c)
entity-IsInert c = ground arith

entities-IsInert : (s : Text) → All IsInert (entities s)
entities-IsInert [] = tt
entities-IsInert (c ∷ s) =
    All-append IsInert (entity c) (entities s) (entity-IsInert c) (entities-IsInert s)

-- Escaped text holds no angle bracket and no quote.
pub escape_html-IsInert : (s : Text) → All IsInert (escape_html s)
escape_html-IsInert s = subst (All IsInert) (sym (escape_html-entities s)) (entities-IsInert s)
