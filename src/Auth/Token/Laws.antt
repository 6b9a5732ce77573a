-- ===== src/Auth/Token/Laws.antt =====
-- A session cookie that was issued is accepted for twelve hours, and what is accepted was signed.
use mathlib.Core.List.{append_assoc, append-nil}
use save_the_date.Base.{
  ℕ, ◌+◌, ◌≤◌, ◌≡◌, refl, ◌≢◌, sym, ap, ◌∙◌, false, Option, none, some, [], ◌∷◌, ◌++◌, arith, Text,
  same_refl, same→eq, is_empty, returned, All,
}
use save_the_date.Auth.Session.{AppRole, AuthSession}
use save_the_date.Auth.Token.{
  Parsed, Codec, session_ttl_ms, split_from, split_dots, first_part, second_part, sign,
  create_session_token, is_fresh, accept, check_signature, verify_parts, verify_session_token,
}

-- A text without a dot, as base64url texts are.
abbrev pub IsDotless : Text → Type 0
IsDotless = All (λ c. c ≢ b'.')

split_from-dotless : (part s : Text) → IsDotless s → split_from part s ≡ (part ++ s) ∷ []
unfolding split_from
split_from-dotless part [] h = ap (λ t. t ∷ []) (sym (append-nil part))
split_from-dotless part (c ∷ s) h =
    ground (arith, split_from-dotless (part ++ c ∷ []) s h.1, append_assoc part (c ∷ []) s)

split_from-append :
    (part s t : Text)
    → IsDotless s
    → split_from part (s ++ b'.' ∷ t) ≡ (part ++ s) ∷ split_from [] t
unfolding split_from
split_from-append part [] t h = ground (arith, append-nil part)
split_from-append part (c ∷ s) t h =
    ground (arith, split_from-append (part ++ c ∷ []) s t h.1, append_assoc part (c ∷ []) s)

pub split_dots-append :
    (s t : Text) → IsDotless s → IsDotless t → split_dots (s ++ b'.' ∷ t) ≡ s ∷ t ∷ []
unfolding split_dots
split_dots-append s t h k =
    split_from-append [] s t h ∙ ap (λ ps. s ∷ ps) (split_from-dotless [] t k)

abbrev pub as_parsed : AuthSession → Parsed
as_parsed s = record {
  user_id = s.user_id;
  email = s.email;
  role = some s.role;
  issued_at = some s.issued_at;
}

-- What the code relies on: the JSON of a session reads back, base64url reads back and has no dot,
-- and neither a coded session nor a signature is empty.
pub record IsCodec (codec : Codec) : Type 0 where
  pub reads_back :
      (s : AuthSession)
      → codec.parse (codec.decode (codec.encode (codec.stringify s))) ≡ some (as_parsed s)
  pub payload_dotless : (t : Text) → IsDotless (codec.encode t)
  pub payload_not_empty : (s : AuthSession) → is_empty (codec.encode (codec.stringify s)) ≡ false
  pub signature_dotless : (k t : Text) → IsDotless (codec.hmac k t)
  pub signature_not_empty : (k t : Text) → is_empty (codec.hmac k t) ≡ false

-- What an accepted token shows: it was signed with the secret, it has not expired, and it names a
-- user.
pub record IsAuthentic (codec : Codec) (secret token : Text) (now : ℕ) (s : AuthSession)
    : Type 0 where
  pub signed : second_part (split_dots token) ≡ codec.hmac secret (first_part (split_dots token))
  pub payload : codec.parse (codec.decode (first_part (split_dots token))) ≡ some (as_parsed s)
  pub fresh : now ≤ s.issued_at + session_ttl_ms
  pub user : s.user_id ≢ []
  pub address : s.email ≢ []

module _ (codec : Codec) where
  accept-as_parsed :
      (now : ℕ) (s : AuthSession)
      → s.user_id ≢ []
      → s.email ≢ []
      → now ≤ s.issued_at + session_ttl_ms
      → accept codec now (some (as_parsed s)) ≡ some s
  unfolding accept is_fresh
  accept-as_parsed now s u e f = ground arith

  verify_session_token-append :
      (secret : Option Text) (payload signature : Text) (now : ℕ)
      → is_empty payload ≡ false
      → is_empty signature ≡ false
      → IsDotless payload
      → IsDotless signature
      → verify_session_token codec secret (some (payload ++ b'.' ∷ signature)) now
        ≡ check_signature codec payload signature now (sign codec secret payload)
  unfolding verify_session_token verify_parts first_part second_part
  verify_session_token-append secret [] signature now p s d d' = cc
  verify_session_token-append secret (x ∷ payload) signature now p s d d' =
      rw (split_dots-append (x ∷ payload) signature d d', s)

  -- Under a secret, and with codings that read back and keep clear of the dot, a token that
  -- `createSessionToken` made for an id and an email that are not empty is accepted, as the session
  -- that it was made for, until twelve hours have passed.
  pub verify-create :
      (c : ℕ) (secret id email : Text) (role : AppRole) (issued now : ℕ) (token : Text)
      → IsCodec codec
      → id ≢ []
      → email ≢ []
      → now ≤ issued + session_ttl_ms
      → create_session_token codec (some (c ∷ secret)) id email role issued ≡ returned token
      → verify_session_token codec (some (c ∷ secret)) (some token) now
        ≡ returned (some (record { user_id = id; email = email; role = role; issued_at = issued }))
  unfolding create_session_token sign check_signature
  verify-create c secret id email role issued now token laws u e f made =
      let session : AuthSession = record {
        user_id = id;
        email = email;
        role = role;
        issued_at = issued;
      } in
      let payload = codec.encode (codec.stringify session) in
      let signature = codec.hmac (c ∷ secret) payload in
      let joined : payload ++ b'.' ∷ signature ≡ token = cc made in
      rw (← joined) (
        rw (
          verify_session_token-append (some (c ∷ secret)) payload signature now
              (laws.payload_not_empty session) (laws.signature_not_empty (c ∷ secret) payload)
              (laws.payload_dotless (codec.stringify session))
              (laws.signature_dotless (c ∷ secret) payload),
          same_refl signature,
          laws.reads_back session,
          accept-as_parsed now session u e f,
        ))

  accept-eq-some :
      (now : ℕ) (o : Option Parsed) (s : AuthSession)
      → accept codec now o ≡ some s
      → (o ≡ some (as_parsed s))
        × (now ≤ s.issued_at + session_ttl_ms)
        × (s.user_id ≢ [])
        × (s.email ≢ [])
  unfolding accept is_fresh
  accept-eq-some now none s h = cc
  accept-eq-some now (some p) s h = ground arith

  -- A session is accepted only from a token whose second part is the signature of its first under
  -- the configured secret, whose payload is that session, with an id and an email, and within
  -- twelve hours of its issue.
  pub verify-IsAuthentic :
      (secret : Option Text) (token : Option Text) (now : ℕ) (s : AuthSession)
      → verify_session_token codec secret token now ≡ returned (some s)
      → (k : Text) × (t : Text) × (secret ≡ some k)
        × (k ≢ [])
        × (token ≡ some t)
        × IsAuthentic codec k t now s
  unfolding verify_session_token verify_parts check_signature sign
  verify-IsAuthentic secret none now s h = cc
  verify-IsAuthentic secret (some []) now s h = cc
  verify-IsAuthentic none (some (c ∷ token)) now s h = ground arith
  verify-IsAuthentic (some []) (some (c ∷ token)) now s h = ground arith
  verify-IsAuthentic (some (k ∷ key)) (some (c ∷ token)) now s h =
      let parts = split_dots (c ∷ token) in
      let opened =
        accept-eq-some now (codec.parse (codec.decode (first_part parts))) s (ground arith) in
      (
        k ∷ key,
        c ∷ token,
        refl,
        cc,
        refl,
        record {
          signed = sym (
              same→eq (codec.hmac (k ∷ key) (first_part parts)) (second_part parts) (ground arith));
          payload = opened.0;
          fresh = opened.1;
          user = opened.2;
          address = opened.3;
        },
      )
