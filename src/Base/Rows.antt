-- ===== src/Base/Rows.antt =====
-- What an update of some rows of a table keeps: columns without duplicates, tests that hold of a
-- row, counts.
use Prim.Native.Nat.{◌≤◌, ◌+◌}
use mathlib.Core.Path.{◌≡◌, refl, sym, subst}
use mathlib.Core.Logic.{◌≢◌, ◌⊎◌, inl, inr}
use mathlib.Core.Bool.{Bool, true}
use mathlib.Core.Option.{some}
use mathlib.Core.List.{List, [], ◌∷◌, ◌++◌, map}
use native.Mathlib.Omega.{arith}
use save_the_date.Base.Lists.{
  All, All-imp, All-both, All-filter, Distinct, head?, find?, any, count, filter, update_where,
  length,
}
use save_the_date.Base.Tests.{Bool-cases}

module _ {ℓ κ} {A : Type ℓ} {B : Type κ} (col : A → B) (p : A → Bool) (f : A → A)
    (keep : (x : A) → col (f x) ≡ col x) where
  All-ne-update_where :
      (b : B) (xs : List A) → All (λ y. b ≢ col y) xs → All (λ y. b ≢ col y) (update_where p f xs)
  All-ne-update_where b [] h = tt
  All-ne-update_where b (x ∷ xs) h = ground (arith, keep x, All-ne-update_where b xs h.1)

  -- An update that leaves the column alone keeps it free of duplicates.
  pub Distinct-update_where : (xs : List A) → Distinct col xs → Distinct col (update_where p f xs)
  Distinct-update_where [] h = tt
  Distinct-update_where (x ∷ xs) h = elim (Bool-cases (p x)) [
    | inl hit ↦
        rw hit (rw (keep x) (All-ne-update_where (col x) xs h.0, Distinct-update_where xs h.1))
    | inr miss ↦ rw miss (All-ne-update_where (col x) xs h.0, Distinct-update_where xs h.1)
  ]

module _ {ℓ} {A : Type ℓ} where
  -- A row that passes the test passes it after an update that keeps the test.
  pub any-update_where :
      (test p : A → Bool) (f : A → A) (xs : List A)
      → ((x : A) → test x ≡ true → test (f x) ≡ true)
      → any test xs ≡ true
      → any test (update_where p f xs) ≡ true
  any-update_where test p f [] keep h = h
  any-update_where test p f (x ∷ xs) keep h =
      ground (arith, keep x, any-update_where test p f xs keep)

  -- The test holds of some row after an update that makes it hold of a row that it changes.
  pub any-update_where_hit :
      (test p : A → Bool) (f : A → A) (x : A) (xs ys : List A)
      → filter p xs ≡ x ∷ ys
      → test (f x) ≡ true
      → any test (update_where p f xs) ≡ true
  any-update_where_hit test p f x [] ys e h = cc
  any-update_where_hit test p f x (z ∷ zs) ys e h =
      ground (arith, any-update_where_hit test p f x zs ys)

  pub count-update_where_le :
      (test p : A → Bool) (f : A → A) (xs : List A)
      → ((x : A) → test (f x) ≡ true → test x ≡ true)
      → count test (update_where p f xs) ≤ count test xs
  count-update_where_le test p f [] back = omega arith
  count-update_where_le test p f (x ∷ xs) back =
      ground (arith, back x, count-update_where_le test p f xs back)

  pub length-update_where :
      (p : A → Bool) (f : A → A) (xs : List A) → length (update_where p f xs) ≡ length xs
  length-update_where p f [] = refl
  length-update_where p f (x ∷ xs) = omega (arith, length-update_where p f xs)

  -- The rows that an update returns are the changed ones, where the test still holds of them.
  pub filter-update_where :
      (p : A → Bool) (f : A → A) (xs : List A)
      → ((x : A) → p x ≡ true → p (f x) ≡ true)
      → filter p (update_where p f xs) ≡ map f (filter p xs)
  filter-update_where p f [] keep = refl
  filter-update_where p f (x ∷ xs) keep = ground (arith, keep x, filter-update_where p f xs keep)

  -- An update that hits no row changes nothing.
  pub update_where_none :
      (p : A → Bool) (f : A → A) (xs : List A) → filter p xs ≡ [] → update_where p f xs ≡ xs
  update_where_none p f [] e = refl
  update_where_none p f (x ∷ xs) e = ground (arith, update_where_none p f xs)

  -- What holds of every row holds of the first row that a filter keeps.
  pub All-filter-head {κ} :
      (P : A → Type κ) (p : A → Bool) {x : A} {ys : List A} (xs : List A)
      → All P xs
      → filter p xs ≡ x ∷ ys
      → P x
  All-filter-head P p [] h e = cc
  All-filter-head P p {x} (z ∷ zs) h e = elim (Bool-cases (p z)) [
    | inl hit ↦ subst P (head_eq (rw hit at e)) h.0
    | inr miss ↦ All-filter-head P p zs h.1 (rw miss at e)
  ]
    where
      head_eq : {ys : List A} → z ∷ filter p zs ≡ x ∷ ys → z ≡ x
      head_eq q = cc

  pub filter-head :
      (p : A → Bool) {x : A} {ys : List A} (xs : List A) → filter p xs ≡ x ∷ ys → p x ≡ true
  filter-head p [] e = cc
  filter-head p {x} {ys} (z ∷ zs) e = ground (arith, filter-head p {x = x} {ys = ys} zs)

  pub count-append : (p : A → Bool) (xs ys : List A) → count p (xs ++ ys) ≡ count p xs + count p ys
  count-append p [] ys = omega arith
  count-append p (x ∷ xs) ys = ground (arith, count-append p xs ys)

  -- The row that a query with a limit of one finds passes its test, and has what every row has.
  pub head?-filter {κ} :
      (P : A → Type κ) (p : A → Bool) (xs : List A) (x : A)
      → All P xs
      → head? (filter p xs) ≡ some x
      → P x × (p x ≡ true)
  head?-filter P p [] x h e = cc
  head?-filter P p (z ∷ zs) x h e = elim (Bool-cases (p z)) [
    | inl hit ↦
        let found : z ≡ x = cc (rw hit at e) in
        (subst P found h.0, subst (λ y. p y ≡ true) found hit)
    | inr miss ↦ head?-filter P p zs x h.1 (rw miss at e)
  ]

  -- What `find` answers passes the test, and has what every element has.
  pub find?-All {κ} :
      (P : A → Type κ) (p : A → Bool) (xs : List A) (x : A)
      → All P xs
      → find? p xs ≡ some x
      → P x × (p x ≡ true)
  find?-All P p [] x h e = cc
  find?-All P p (z ∷ zs) x h e = elim (Bool-cases (p z)) [
    | inl hit ↦
        let found : z ≡ x = cc (rw hit at e) in
        (subst P found h.0, subst (λ y. p y ≡ true) found hit)
    | inr miss ↦ find?-All P p zs x h.1 (rw miss at e)
  ]

  pub All-Unit : (xs : List A) → All (λ x. Unit {0}) xs
  All-Unit [] = tt
  All-Unit (x ∷ xs) = (tt, All-Unit xs)

-- A row passes the test, or differs in the column from every row that does.
pub filter_separates {ℓ κ} :
    {A : Type ℓ} {B : Type κ} (col : A → B) (p : A → Bool) (xs : List A)
    → Distinct col xs
    → All (λ x. (p x ≡ true) ⊎ All (λ y. col x ≢ col y) (filter p xs)) xs
filter_separates col p [] d = tt
filter_separates col p (x ∷ xs) d = elim (Bool-cases (p x)) [
  | inl hit ↦ (
    inl hit,
    All-imp xs
        (λ k (ne, e). elim e [
          | inl kept ↦ inl kept
          | inr others ↦ inr (rw hit (λ same_col. ne (sym same_col), others))
        ])
        (All-both _ _ xs d.0 (filter_separates col p xs d.1)),
  )
  | inr miss ↦ (
    inr (rw miss (All-filter (λ y. col x ≢ col y) p xs d.0)),
    All-imp xs (λ k e. rw miss e) (filter_separates col p xs d.1),
  )
]

-- An update that keeps what is counted.
pub count-update_where {ℓ} :
    {A : Type ℓ} (q p : A → Bool) (f : A → A) (xs : List A)
    → ((x : A) → q (f x) ≡ q x)
    → count q (update_where p f xs) ≡ count q xs
count-update_where q p f [] keep = refl
count-update_where q p f (x ∷ xs) keep = ground (arith, keep x, count-update_where q p f xs keep)
