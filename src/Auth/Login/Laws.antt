-- ===== src/Auth/Login/Laws.antt =====
-- Who is signed in, and with what cookie.
use save_the_date.Base.{
  ℕ, ◌+◌, ◌≤◌, ◌≡◌, refl, subst, ap, ◌≢◌, ◌⊎◌, inl, inr, Bool, true, false, Bool-cases, Outcome,
  thrown, ◌++◌, same_refl, is_empty, ◌||◌, Option, none, some, List, [], ◌∷◌, arith, Text, same,
  trim, returned, or_else, All, same→eq,
}
use save_the_date.Auth.Session.{AppRole}
use save_the_date.Auth.Token.{
  Codec, AuthError, session_ttl_ms, create_session_token, verify_session_token,
}
use save_the_date.Auth.Token.Laws.{IsCodec, verify-create}
use save_the_date.Auth.Login.{
  AppUser, SessionCookie, LoginResponse, invalid_request, invalid_credentials, signed_in, LoginBody,
  find_user_by_email, verify_user_password, sign_in, signed_by, check_password, log_in_with, log_in,
  session_max_age_seconds,
}

one_empty : (s t : Text) → is_empty s || is_empty t ≡ true → (s ≡ []) ⊎ (t ≡ [])
one_empty [] t h = inl refl
one_empty (c ∷ s) [] h = inr refl
one_empty (c ∷ s) (d ∷ t) h = cc

none_empty : (s t : Text) → is_empty s || is_empty t ≡ false → (s ≢ []) × (t ≢ [])
none_empty [] t h = cc
none_empty (c ∷ s) [] h = cc
none_empty (c ∷ s) (d ∷ t) h = (cc, cc)

All-middle {ℓ κ} :
    {A : Type ℓ} (P : A → Type κ) (xs : List A) (y : A) (ys : List A) → All P (xs ++ y ∷ ys) → P y
All-middle P [] y ys h = h.0
All-middle P (x ∷ xs) y ys h = All-middle P xs y ys h.1

module _ (codec : Codec) (lower : Text → Text) (compare : Text → Text → Bool) where
  abbrev pub address_of : LoginBody → Text
  address_of body = trim (or_else body.email [])

  -- The first of the users whose email has the letters of the address, in either case.
  abbrev pub IsFirst : Text → List AppUser → AppUser → Type 0
  IsFirst address users user =
      (others : List AppUser) × (rest : List AppUser) × (users ≡ others ++ user ∷ rest)
      × (lower user.email ≡ lower address)
      × All (λ u. lower u.email ≢ lower address) others

  -- What a sign-in shows: the user is the first with the email that was sent, the password fits the
  -- user's hash, and the answer and the cookie are that user's.
  pub record IsSignedIn (secret : Option Text) (now : ℕ) (users : List AppUser) (body : LoginBody)
      (email : Text) (role : AppRole) (cookie : SessionCookie) : Type 0 where
    pub user : AppUser
    pub first : IsFirst (address_of body) users user
    pub fits : compare (or_else body.password []) user.password_hash ≡ true
    pub same_email : email ≡ user.email
    pub same_role : role ≡ user.role
    pub token :
        create_session_token codec secret user.id user.email user.role now ≡ returned cookie.value
    pub lifetime : cookie.max_age ≡ session_max_age_seconds

  -- How a request to sign in can end.
  abbrev pub Ends :
      Option Text → ℕ → List AppUser → LoginBody → Outcome AuthError LoginResponse → Type 0
  Ends secret now users body (returned invalid_request) =
      (address_of body ≡ []) ⊎ (or_else body.password [] ≡ [])
  Ends secret now users body (returned invalid_credentials) =
      All (λ u. lower u.email ≢ lower (address_of body)) users
      ⊎ ((user : AppUser) × IsFirst (address_of body) users user
          × (compare (or_else body.password []) user.password_hash ≡ false))
  Ends secret now users body (returned (signed_in email role cookie)) =
      (address_of body ≢ [])
      × (or_else body.password [] ≢ [])
      × IsSignedIn secret now users body email role cookie
  Ends secret now users body (thrown e) =
      (user : AppUser) × IsFirst (address_of body) users user
      × (compare (or_else body.password []) user.password_hash ≡ true)
      × (create_session_token codec secret user.id user.email user.role now ≡ thrown e)

  abbrev Found : Text → List AppUser → Option AppUser → Type 0
  Found address users none = All (λ u. lower u.email ≢ lower address) users
  Found address users (some user) = IsFirst address users user

  Found-next :
      (address : Text) (u : AppUser) (users : List AppUser) (o : Option AppUser)
      → lower u.email ≢ lower address
      → Found address users o
      → Found address (u ∷ users) o
  Found-next address u users none ne f = (ne, f)
  Found-next address u users (some user) ne (others, rest, e, fits, before) =
      (u ∷ others, rest, ap (λ us. u ∷ us) e, fits, (ne, before))

  find_user_by_email-Found :
      (address : Text) (users : List AppUser)
      → Found address users (find_user_by_email codec lower compare address users)
  unfolding find_user_by_email
  find_user_by_email-Found address [] = tt
  find_user_by_email-Found address (u ∷ users) =
      elim (Bool-cases (same (lower u.email) (lower address))) [
        | inl hit ↦ rw hit ([], users, refl, same→eq (lower u.email) (lower address) hit, tt)
        | inr miss ↦
            let differs : lower u.email ≢ lower address =
              λ e. ground (arith, miss, e, same_refl (lower address)) in
            rw miss (
              Found-next address u users (find_user_by_email codec lower compare address users)
                differs (find_user_by_email-Found address users))
      ]

  signed_by-Ends :
      (secret : Option Text) (now : ℕ) (users : List AppUser) (body : LoginBody) (user : AppUser)
      → address_of body ≢ []
      → or_else body.password [] ≢ []
      → IsFirst (address_of body) users user
      → compare (or_else body.password []) user.password_hash ≡ true
      → (o : Outcome AuthError Text)
      → create_session_token codec secret user.id user.email user.role now ≡ o
      → Ends secret now users body (signed_by codec lower compare user o)
  unfolding signed_by
  signed_by-Ends secret now users body user given typed f fits (thrown e) made =
      (user, f, fits, made)
  signed_by-Ends secret now users body user given typed f fits (returned token) made = (
    given,
    typed,
    record {
      user = user;
      first = f;
      fits = fits;
      same_email = refl;
      same_role = refl;
      token = made;
      lifetime = refl;
    },
  )

  check_password-Ends :
      (secret : Option Text) (now : ℕ) (users : List AppUser) (body : LoginBody)
      (o : Option AppUser)
      → address_of body ≢ []
      → or_else body.password [] ≢ []
      → Found (address_of body) users o
      → Ends secret now users body
          (check_password codec lower compare secret now (or_else body.password []) o)
  unfolding check_password verify_user_password sign_in
  check_password-Ends secret now users body none given typed f = inl f
  check_password-Ends secret now users body (some user) given typed f =
      elim (Bool-cases (compare (or_else body.password []) user.password_hash)) [
        | inl fits ↦ rw fits (
            signed_by-Ends secret now users body user given typed f fits
              (create_session_token codec secret user.id user.email user.role now) refl)
        | inr differs ↦ rw differs (inr (user, f, differs))
      ]

  pub log_in-Ends :
      (secret : Option Text) (now : ℕ) (users : List AppUser) (body : LoginBody)
      → Ends secret now users body (log_in codec lower compare secret now users (some body))
  unfolding log_in log_in_with
  log_in-Ends secret now users body =
      let address = address_of body in
      let password = or_else body.password [] in
      elim (Bool-cases (is_empty address || is_empty password)) [
        | inl blank ↦ rw blank (one_empty address password blank)
        | inr given ↦
            let (named, typed) = none_empty address password given in
            rw given (
              check_password-Ends secret now users body
                (find_user_by_email codec lower compare address users) named typed
                (find_user_by_email-Found address users))
      ]

  -- After a sign-in under a secret, and with codings that read back and keep clear of the dot, the
  -- cookie opens a session for that email and role for the twelve hours that follow, if the email
  -- and the users' ids are not empty.
  pub log_in-verify :
      (c : ℕ) (key : Text) (issued now : ℕ) (users : List AppUser) (body : LoginBody) (email : Text)
      (role : AppRole) (cookie : SessionCookie)
      → IsCodec codec
      → All (λ u. u.id ≢ []) users
      → email ≢ []
      → now ≤ issued + session_ttl_ms
      → log_in codec lower compare (some (c ∷ key)) issued users (some body)
        ≡ returned (signed_in email role cookie)
      → (id : Text) × (verify_session_token codec (some (c ∷ key)) (some cookie.value) now
          ≡ returned
              (some (record { user_id = id; email = email; role = role; issued_at = issued })))
  log_in-verify c key issued now users body email role cookie laws ids e f h =
      let (named, typed, s) =
        subst (Ends (some (c ∷ key)) issued users body) h
          (log_in-Ends (some (c ∷ key)) issued users body) in
      let (others, rest, split, fits, before) = s.first in
      let id_given =
        All-middle (λ (u : AppUser). u.id ≢ []) others s.user rest
          (subst (All (λ (u : AppUser). u.id ≢ [])) split ids) in
      (
        s.user.id,
        verify-create codec c key s.user.id email role issued now cookie.value laws id_given e f
            (rw (s.same_email, s.same_role) s.token),
      )
