-- ===== src/Auth/Tests.antt =====
-- Sessions under a small codec: a length before each text, and codes moved above the dot.
use save_the_date.Base.{
  ap₂, ◌∙◌, Bool, ◌==◌, if◌then◌else◌, ℕ, ◌+◌, ◌-◌, ◌≡◌, refl, ◌≢◌, ap, Option, none, some, List,
  [], ◌∷◌, ◌++◌, map, arith, Text, codes, length, take, drop, returned, same, trim, trim_start,
  is_space,
}
use save_the_date.Auth.Session.{AppRole, super_admin, bouncer, AuthSession}
use save_the_date.Auth.Token.{Parsed, Codec, create_session_token, verify_session_token}
use save_the_date.Auth.Token.Laws.{
  IsDotless, IsCodec, as_parsed, IsAuthentic, verify-create, verify-IsAuthentic,
}
use save_the_date.Auth.Login.{
  AppUser, signed_in, LoginBody, find_user_by_email, log_in, SessionCookie,
}
use save_the_date.Auth.Login.Laws.{log_in-verify}

abbrev role_code : AppRole → ℕ
role_code super_admin = 1
role_code bouncer = 2

abbrev role_from : ℕ → Option AppRole
role_from n = if n == 1 then some super_admin else if n == 2 then some bouncer else none

abbrev write_session : AuthSession → Text
write_session s =
    length s.user_id
    ∷ (s.user_id ++ (length s.email ∷ (s.email ++ (role_code s.role ∷ (s.issued_at ∷ [])))))

abbrev read_end : Text → Text → Text → Option Parsed
read_end user email (r ∷ (i ∷ [])) =
    some (record { user_id = user; email = email; role = role_from r; issued_at = some i })
read_end user email _ = none

abbrev read_email : Text → Text → Option Parsed
read_email user [] = none
read_email user (n ∷ s) = read_end user (take n s) (drop n s)

abbrev read_session : Text → Option Parsed
read_session [] = none
read_session (n ∷ s) = read_email (take n s) (drop n s)

abbrev codec : Codec
codec = record {
  stringify = write_session;
  parse = read_session;
  encode = map (λ c. c + 47);
  decode = map (λ c. c - 47);
  hmac = λ k t. (length k + length t + 47) ∷ [];
}

take-length : (s t : Text) → take (length s) (s ++ t) ≡ s
take-length [] t = refl
take-length (c ∷ s) t = ap (λ u. c ∷ u) (take-length s t)

drop-length : (s t : Text) → drop (length s) (s ++ t) ≡ t
drop-length [] t = refl
drop-length (c ∷ s) t = drop-length s t

decode-encode : (s : Text) → codec.decode (codec.encode s) ≡ s
decode-encode [] = refl
decode-encode (c ∷ s) = grind (arith, decode-encode s)

role_code-role_from : (r : AppRole) → role_from (role_code r) ≡ some r
role_code-role_from super_admin = refl
role_code-role_from bouncer = refl

encode-IsDotless : (s : Text) → IsDotless (codec.encode s)
encode-IsDotless [] = tt
encode-IsDotless (c ∷ s) = (omega arith, encode-IsDotless s)

read-write : (s : AuthSession) → read_session (write_session s) ≡ some (as_parsed s)
read-write s =
    let rest = role_code s.role ∷ (s.issued_at ∷ []) in
    ap₂ read_email (take-length s.user_id (length s.email ∷ (s.email ++ rest)))
      (drop-length s.user_id (length s.email ∷ (s.email ++ rest)))
    ∙ ap₂ (read_end s.user_id) (take-length s.email rest) (drop-length s.email rest)
    ∙ ap
        (λ r.
          some (record {
            user_id = s.user_id;
            email = s.email;
            role = r;
            issued_at = some s.issued_at;
          }))
        (role_code-role_from s.role)

reads_back :
    (s : AuthSession)
    → codec.parse (codec.decode (codec.encode (codec.stringify s))) ≡ some (as_parsed s)
reads_back s = ap read_session (decode-encode (write_session s)) ∙ read-write s

codec-IsCodec : IsCodec codec
codec-IsCodec = record {
  reads_back = reads_back;
  payload_dotless = encode-IsDotless;
  payload_not_empty = λ s. refl;
  signature_dotless = λ k t. (omega arith, tt);
  signature_not_empty = λ k t. refl;
}

abbrev key : Text
key = codes "key"

abbrev session : AuthSession
session = record { user_id = codes "u1"; email = codes "a@b.c"; role = bouncer; issued_at = 5 }

-- The token of the session under the codec.
abbrev token : Text
token =
    codec.encode (write_session session)
    ++ (b'.' ∷ codec.hmac key (codec.encode (write_session session)))

made : create_session_token codec (some key) (codes "u1") (codes "a@b.c") bouncer 5 ≡ returned token
unfolding create_session_token
made = refl

accepted : verify_session_token codec (some key) (some token) 6 ≡ returned (some session)
accepted =
    verify-create codec b'k' (codes "ey") (codes "u1") (codes "a@b.c") bouncer 5 6 token
      codec-IsCodec (ground arith) (ground arith) (omega arith) made

verify-create_example :
    verify_session_token codec (some key) (some token) 6 ≡ returned (some session)
verify-create_example =
    verify-create codec b'k' (codes "ey") (codes "u1") (codes "a@b.c") bouncer 5 6 token
      codec-IsCodec (ground arith) (ground arith) (omega arith) made

verify-IsAuthentic_example :
    (k : Text) × (t : Text) × (some key ≡ some k)
    × (k ≢ [])
    × (some token ≡ some t)
    × IsAuthentic codec k t 6 session
verify-IsAuthentic_example = verify-IsAuthentic codec (some key) (some token) 6 session accepted

abbrev lower : Text → Text
lower s = s

abbrev compare : Text → Text → Bool
compare password hash = same password hash

abbrev users : List AppUser
users =
    record { id = codes "u1"; email = codes "a@b.c"; password_hash = codes "pw"; role = bouncer }
    ∷ []

abbrev body : LoginBody
body = record { email = some (codes "a@b.c"); password = some (codes "pw") }

abbrev cookie : SessionCookie
cookie = record { value = token; max_age = 43200 }

entered :
    log_in codec lower compare (some key) 5 users (some body)
    ≡ returned (signed_in (codes "a@b.c") bouncer cookie)
unfolding log_in create_session_token find_user_by_email same trim trim_start is_space
entered = refl

log_in-verify_example :
    (id : Text) × (verify_session_token codec (some key) (some token) 6
      ≡ returned
          (some (record { user_id = id; email = codes "a@b.c"; role = bouncer; issued_at = 5 })))
log_in-verify_example =
    log_in-verify codec lower compare b'k' (codes "ey") 5 6 users body (codes "a@b.c") bouncer
      cookie codec-IsCodec (ground arith) (ground arith) (omega arith) entered

found :
    find_user_by_email codec lower compare (codes "a@b.c") users
    ≡ some (record {
      id = codes "u1";
      email = codes "a@b.c";
      password_hash = codes "pw";
      role = bouncer;
    })
unfolding find_user_by_email same
found = refl
