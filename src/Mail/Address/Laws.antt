-- ===== src/Mail/Address/Laws.antt =====
-- The test for an email address accepts what its regular expression describes.
use save_the_date.Base.{
  ◌≡◌, refl, ◌≢◌, ◌↔◌, ◌⊎◌, subst, ◌∙◌, ap, Bool, true, false, not, ◌&&◌, [], ◌∷◌, ◌++◌, arith,
  Text, is_empty, is_space, trim, trim-trim, ◌==◌, Bool-cases, inl, inr,
}
use save_the_date.Mail.Address.{
  is_plain, all_plain, dot_inside, domain_fits, local_fits, is_likely_email,
}

-- `[^\s@]+`
abbrev pub IsWord : Text → Type 0
IsWord s = (s ≢ []) × (all_plain s ≡ true)

-- A word, an at sign, and a domain of two words around a dot.
pub record IsAddress (s : Text) : Type 0 where
  pub user : Text
  pub domain : Text
  pub top : Text
  pub spelled : s ≡ user ++ b'@' ∷ (domain ++ b'.' ∷ top)
  pub user_word : IsWord user
  pub domain_word : IsWord domain
  pub top_word : IsWord top

all_plain-append : (s t : Text) → all_plain (s ++ t) ≡ (all_plain s && all_plain t)
unfolding all_plain
all_plain-append [] t = refl
all_plain-append (c ∷ s) t = ground (arith, all_plain-append s t)

dot_inside-append : (s t : Text) → t ≢ [] → dot_inside (s ++ b'.' ∷ t) ≡ true
unfolding dot_inside
dot_inside-append [] [] h = absurd (h refl)
dot_inside-append [] (c ∷ t) h = ground arith
dot_inside-append (c ∷ s) t h = ground (arith, dot_inside-append s t h)

-- A dot that has something behind it splits the text.
split_dot :
    (s : Text) → dot_inside s ≡ true → (a : Text) × (b : Text) × (s ≡ a ++ b'.' ∷ b) × (b ≢ [])
unfolding dot_inside
split_dot [] h = cc
split_dot (c ∷ s) h = elim (Bool-cases (c == b'.' && not (is_empty s))) [
  | inl here ↦ ([], s, ground arith, ground arith)
  | inr there ↦ let (a, b, e, f) = split_dot s (ground arith) in (c ∷ a, b, ap (λ t. c ∷ t) e, f)
]

plain_parts :
    (a b : Text) → all_plain (a ++ b'.' ∷ b) ≡ true → (all_plain a ≡ true) × (all_plain b ≡ true)
unfolding all_plain
plain_parts a b h = ground (arith, all_plain-append a (b'.' ∷ b))

domain_fits_sound :
    (s : Text)
    → domain_fits s ≡ true
    → (a : Text) × (b : Text) × (s ≡ a ++ b'.' ∷ b) × IsWord a × IsWord b
unfolding domain_fits
domain_fits_sound [] h = cc
domain_fits_sound (c ∷ s) h =
    let (a, b, e, f) = split_dot s (ground arith) in
    let spelled : c ∷ s ≡ (c ∷ a) ++ b'.' ∷ b = ap (λ t. c ∷ t) e in
    let plain : all_plain (c ∷ s) ≡ true = ground arith in
    let (first, second) = plain_parts (c ∷ a) b (subst (λ t. all_plain t ≡ true) spelled plain) in
    (c ∷ a, b, spelled, (cc, first), (f, second))

all_plain-dot : (b : Text) → all_plain (b'.' ∷ b) ≡ all_plain b
unfolding all_plain is_space
all_plain-dot b = refl

plain_whole :
    (a b : Text) → all_plain a ≡ true → all_plain b ≡ true → all_plain (a ++ b'.' ∷ b) ≡ true
plain_whole a b h k = ground (arith, all_plain-append a (b'.' ∷ b), all_plain-dot b)

domain_fits_complete : (a b : Text) → IsWord a → IsWord b → domain_fits (a ++ b'.' ∷ b) ≡ true
unfolding domain_fits
domain_fits_complete [] b h k = absurd (h.0 refl)
domain_fits_complete (c ∷ a) b h k =
    ground (arith, plain_whole (c ∷ a) b h.1 k.1, dot_inside-append a b k.0)

local_fits_sound :
    (r : Bool) (s : Text)
    → local_fits r s ≡ true
    → (u : Text) × (d : Text) × (s ≡ u ++ b'@' ∷ d)
      × (all_plain u ≡ true)
      × (domain_fits d ≡ true)
      × ((r ≡ true) ⊎ (u ≢ []))
unfolding local_fits all_plain
local_fits_sound r [] h = cc
local_fits_sound r (c ∷ s) h = elim (Bool-cases (c == b'@')) [
  | inl here ↦ ([], s, ground arith, refl, ground arith, ground arith)
  | inr there ↦
      let (u, d, e, plain, fits, _) = local_fits_sound true s (ground arith) in
      (c ∷ u, d, ap (λ t. c ∷ t) e, ground arith, fits, inr cc)
]

local_fits_complete :
    (r : Bool) (u d : Text)
    → all_plain u ≡ true
    → domain_fits d ≡ true
    → (r ≡ true) ⊎ (u ≢ [])
    → local_fits r (u ++ b'@' ∷ d) ≡ true
unfolding local_fits all_plain is_plain
local_fits_complete r [] d h k w = ground arith
local_fits_complete r (c ∷ u) d h k w =
    ground (arith, local_fits_complete true u d (ground arith) k (inl refl))

-- The test holds exactly when the trimmed text is a word, an at sign and a domain of two words
-- around a dot, no word being empty or holding white space or an at sign.
pub is_likely_email_iff : (value : Text) → (is_likely_email value ≡ true) ↔ IsAddress (trim value)
unfolding is_likely_email
is_likely_email_iff value = (
  λ h.
      let (u, d, e, plain, fits, some_read) = local_fits_sound false (trim value) h in
      let (a, b, spelled, word_a, word_b) = domain_fits_sound d fits in
      record {
        user = u;
        domain = a;
        top = b;
        spelled = e ∙ ap (λ t. u ++ b'@' ∷ t) spelled;
        user_word = (ground (arith, some_read), plain);
        domain_word = word_a;
        top_word = word_b;
      },
  λ w. rw w.spelled (
      local_fits_complete false w.user (w.domain ++ b'.' ∷ w.top) w.user_word.1
        (domain_fits_complete w.domain w.top w.domain_word w.top_word) (inr w.user_word.0)),
)

-- An address is tested as its trimmed text.
pub is_likely_email-trim : (value : Text) → is_likely_email (trim value) ≡ is_likely_email value
unfolding is_likely_email
is_likely_email-trim value = ap (local_fits false) (trim-trim value)
