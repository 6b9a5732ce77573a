-- ===== src/Routes/Refusals.antt =====
-- Who may do what: the handlers of the original site that ask for a role, and those under the fence.
use save_the_date.Base.{
  ℕ, ◌≡◌, refl, true, false, Bool, Option, none, some, List, [], ◌∷◌, Text, returned, ◌>>◌,
}
use save_the_date.Auth.Session.{AppRole, AuthSession, super_admin, bouncer, can_access_role}
use save_the_date.HallPasses.Model.{HallPass, Db}
use save_the_date.HallPasses.Create.{Draw}
use save_the_date.Mail.Batches.{Provider}
use save_the_date.Routes.Guard.{
  Fence, row, Handler, unauthorized, frozen, guarded, with_legacy_write_fence, answer_frozen,
  assert_legacy_writable,
}
use save_the_date.Routes.Scan.{post_redeem}
use save_the_date.Media.Cloudinary.{CloudinaryConfig}
use save_the_date.Media.Upload.{upload_unauthorized, post_cloudinary_signature, post_revalidate}
use save_the_date.Routes.Administer.{
  RawLimit, EmailBody, post_invalidate, post_invalidate_all, get_settings, put_settings, post_email,
}
use save_the_date.Routes.Issue.{Query, CreateBody, get_passes, post_passes}

-- What the handlers take from outside.
pub record Outside : Type 0 where
  pub ilike : Text → Text → Bool
  pub order : List HallPass → List HallPass
  pub before : Text → Text → Bool
  pub provider : Provider
  pub upper : Text → Text
  pub draws : ℕ → Draw
  pub now : ℕ
  pub fresh : ℕ
  pub parse_url : Text → Option Text
  pub decode_uri : Text → Option Text
  pub sha1 : Text → Text
  pub key_first : Text → Text → Bool

-- A request for one of the handlers of passes and of their limit.
pub data Request : Type 0 where
  list : Query → Request
  issue : Option CreateBody → Request
  email : ℕ → Option EmailBody → Request
  invalidate : ℕ → Request
  invalidate_all show_limit : Request
  set_limit : RawLimit → Request
  redeem : Option Text → Request

-- The handler of each request, by the folder and the method that export it.
pub handle : Outside → Fence → Option AuthSession → Request → Handler
handle o fence session (list q) = get_passes o.ilike o.order o.before session q
handle o fence session (issue body) =
    post_passes o.provider o.upper o.draws o.now fence session body
handle o fence session (email id body) = post_email o.provider o.now fence session id body
handle o fence session (invalidate id) = post_invalidate o.now fence session id
handle o fence session invalidate_all = post_invalidate_all o.now fence session
handle o fence session show_limit = get_settings session
handle o fence session (set_limit raw) = put_settings o.now fence session raw
handle o fence session (redeem value) =
    post_redeem o.parse_url o.decode_uri o.upper o.now o.fresh fence session value

-- The roles that may make the request: the door may redeem, all else is for administrators.
abbrev pub roles_for : Request → List AppRole
roles_for (redeem value) = super_admin ∷ bouncer ∷ []
roles_for _ = super_admin ∷ []

-- A request for any of the handlers that ask for a role: those, and the two of the media.
pub data Call : Type 0 where
  on_passes : Request → Call
  sign : Option CloudinaryConfig → Option Text → Call
  revalidate : Call

abbrev pub roles_for_call : Call → List AppRole
roles_for_call (on_passes r) = roles_for r
roles_for_call (sign config category) = super_admin ∷ []
roles_for_call revalidate = super_admin ∷ []

-- Whether the request is for a handler under the fence.
unfoldable pub writes : Request → Bool
writes (list q) = false
writes (issue body) = true
writes (email id body) = true
writes (invalidate id) = true
writes invalidate_all = true
writes show_limit = false
writes (set_limit raw) = true
writes (redeem value) = true

guarded-unauthorized :
    (session : Option AuthSession) (roles : List AppRole) (k : AuthSession → Handler) (db : Db)
    → can_access_role session roles ≡ false
    → guarded session roles k db ≡ (returned unauthorized, db)
unfolding guarded
guarded-unauthorized none roles k db h = refl
guarded-unauthorized (some s) roles k db h = rw h refl

fenced-unauthorized :
    (session : Option AuthSession) (roles : List AppRole) (k : AuthSession → Handler) (db : Db)
    → can_access_role session roles ≡ false
    → with_legacy_write_fence (guarded session roles k) db ≡ (returned unauthorized, db)
unfolding with_legacy_write_fence answer_frozen guarded
fenced-unauthorized none roles k db h = refl
fenced-unauthorized (some s) roles k db h = rw h refl

fenced-frozen :
    (session : Option AuthSession) (roles : List AppRole) (k : AuthSession → Handler) (db : Db)
    → can_access_role session roles ≡ true
    → with_legacy_write_fence
        (guarded session roles λ s. assert_legacy_writable (row true) >> k s)
        db
      ≡ (returned frozen, db)
unfolding with_legacy_write_fence answer_frozen guarded assert_legacy_writable can_access_role
fenced-frozen none roles k db h = cc
fenced-frozen (some s) roles k db h = rw h refl

module _ (o : Outside) (fence : Fence) (session : Option AuthSession) (db : Db) where
  -- The call is answered as unauthorized, and nothing changes.
  abbrev pub IsRefused : Call → Type 0
  IsRefused (on_passes r) = handle o fence session r db ≡ (returned unauthorized, db)
  IsRefused (sign config category) =
      post_cloudinary_signature o.sha1 o.key_first o.now config session category
      ≡ upload_unauthorized
  IsRefused revalidate = post_revalidate session ≡ none

  -- A session without one of the roles of the call, or none, is answered as unauthorized, and
  -- nothing changes: by the handlers of passes, of their limit and of the media for any session but
  -- an administrator's, and by the one that redeems for a session that is no administrator's and
  -- not the door's.
  pub handle-unauthorized :
      (call : Call) → can_access_role session (roles_for_call call) ≡ false → IsRefused call
  unfolding handle get_passes post_passes post_email post_invalidate post_invalidate_all
      get_settings put_settings post_redeem post_cloudinary_signature post_revalidate
  handle-unauthorized (on_passes (list q)) h = guarded-unauthorized session _ _ db h
  handle-unauthorized (on_passes (issue body)) h = fenced-unauthorized session _ _ db h
  handle-unauthorized (on_passes (email id body)) h = fenced-unauthorized session _ _ db h
  handle-unauthorized (on_passes (invalidate id)) h = fenced-unauthorized session _ _ db h
  handle-unauthorized (on_passes invalidate_all) h = fenced-unauthorized session _ _ db h
  handle-unauthorized (on_passes show_limit) h = guarded-unauthorized session _ _ db h
  handle-unauthorized (on_passes (set_limit raw)) h = fenced-unauthorized session _ _ db h
  handle-unauthorized (on_passes (redeem value)) h = fenced-unauthorized session _ _ db h
  handle-unauthorized (sign config category) h = rw h refl
  handle-unauthorized revalidate h = rw h refl

  -- While legacy writes are frozen, a request to a handler of passes or of their limit that writes,
  -- by a session with one of the roles for it, gets the answer of the fence, and nothing changes.
  pub handle-frozen :
      (r : Request)
      → fence ≡ row true
      → can_access_role session (roles_for r) ≡ true
      → writes r ≡ true
      → handle o fence session r db ≡ (returned frozen, db)
  unfolding handle writes post_passes post_email post_invalidate post_invalidate_all put_settings
      post_redeem
  handle-frozen (list q) f h w = cc
  handle-frozen (issue body) f h w = rw f (fenced-frozen session _ _ db h)
  handle-frozen (email id body) f h w = rw f (fenced-frozen session _ _ db h)
  handle-frozen (invalidate id) f h w = rw f (fenced-frozen session _ _ db h)
  handle-frozen invalidate_all f h w = rw f (fenced-frozen session _ _ db h)
  handle-frozen show_limit f h w = cc
  handle-frozen (set_limit raw) f h w = rw f (fenced-frozen session _ _ db h)
  handle-frozen (redeem value) f h w = rw f (fenced-frozen session _ _ db h)
