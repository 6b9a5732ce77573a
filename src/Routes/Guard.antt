-- ===== src/Routes/Guard.antt =====
-- What every handler begins with: the role test of apps/web/src/lib/auth.ts, and the write fence of
-- apps/web/src/lib/legacy-write-fence.ts. A handler is a computation over the database, with the
-- session and the state of the fence as arguments.
pub mod Laws
use save_the_date.Base.{
  ℕ, Bool, true, false, Option, none, some, List, [], ◌∷◌, Text, if◌then◌else◌, Outcome, returned,
  thrown, Run, ◌>>◌, pure, throw,
}
use save_the_date.Auth.Session.{AppRole, super_admin, AuthSession, can_access_role}
use save_the_date.HallPasses.Model.{HallPass, RedeemResult, TicketAvailability, Db}
use save_the_date.HallPasses.Create.{CreateError}
use save_the_date.HallPasses.Listing.{ListResult}
use save_the_date.HallPasses.InviteStats.{InviteFromStat}

-- `legacy_write_fence`: no such table yet, a table with no row, or its row.
pub data Fence : Type 0 where
  absent empty : Fence
  row : Bool → Fence

pub data RouteError : Type 0 where
  legacy_writes_frozen malformed_uri : RouteError
  create_failed : CreateError → RouteError

-- `emailDelivery` of a response
pub record EmailReport : Type 0 where
  pub success : Bool
  pub recipient_email : Text
  pub error : Option Text

-- A response by its status and what it carries. The frozen one is the 503 of the fence.
pub data Response : Type 0 where
  unauthorized frozen pass_not_found : Response
  bad_request : Text → Response
  limit_reached : Text → TicketAvailability → Response
  delivery_failed : Text → Option HallPass → Response
  scanned : RedeemResult → Response
  listed : ListResult → TicketAvailability → List InviteFromStat → Response
  issued : List HallPass → TicketAvailability → Option EmailReport → Response
  invalidated : HallPass → TicketAvailability → Response
  all_invalidated : ℕ → List HallPass → TicketAvailability → Response
  availability : TicketAvailability → Response
  delivered : Option HallPass → Response

pub status : Response → ℕ
status unauthorized = 401
status frozen = 503
status pass_not_found = 404
status (bad_request m) = 400
status (limit_reached m a) = 409
status (delivery_failed m p) = 502
status (scanned r) = 200
status (listed l a s) = 200
status (issued ps a e) = 200
status (invalidated p a) = 200
status (all_invalidated n ps a) = 200
status (availability a) = 200
status (delivered p) = 200

abbrev pub Handler : Type 0
Handler = Run Db RouteError Response

-- `if (!session || !canAccessRole(session, roles)) return …`
unfoldable pub guarded : Option AuthSession → List AppRole → (AuthSession → Handler) → Handler
guarded none roles k = pure unauthorized
guarded (some session) roles k =
    if can_access_role (some session) roles then k session else pure unauthorized

-- `assertLegacyWritable()`
unfoldable pub assert_legacy_writable : Fence → Run Db RouteError (Unit {0})
assert_legacy_writable absent = pure tt
assert_legacy_writable empty = pure tt
assert_legacy_writable (row false) = pure tt
assert_legacy_writable (row true) = throw legacy_writes_frozen

-- The `catch` of the fence: other errors go on.
unfoldable pub answer_frozen : Outcome RouteError Response × Db → Outcome RouteError Response × Db
answer_frozen (returned r, db) = (returned r, db)
answer_frozen (thrown legacy_writes_frozen, db) = (returned frozen, db)
answer_frozen (thrown malformed_uri, db) = (thrown malformed_uri, db)
answer_frozen (thrown (create_failed e), db) = (thrown (create_failed e), db)

-- `withLegacyWriteFence(handler)`
unfoldable pub with_legacy_write_fence : Handler → Handler
unfolding answer_frozen
with_legacy_write_fence handler db = answer_frozen (handler db)

-- A handler for administrators that writes: the fence, the role, and the fence's state.
abbrev pub administered : Fence → Option AuthSession → (AuthSession → Handler) → Handler
administered fence session k =
    with_legacy_write_fence
      (guarded session (super_admin ∷ []) λ s. assert_legacy_writable fence >> k s)
