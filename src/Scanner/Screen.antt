-- ===== src/Scanner/Screen.antt =====
-- The state of the component and its handlers, as functions on it. A handler that waits is cut
-- where it waits: what stands before the `await` is one function, what stands after it another.
-- `posted` is the list of the values that were sent to `/api/passes/redeem`, the last one first.
-- The camera of html5-qrcode and the focus of the fields are not part of the state.
use save_the_date.Base.{
  Bool, true, false, not, Option, none, some, List, [], ◌∷◌, ◌++◌, Text, codes, same, is_empty,
  trim, if◌then◌else◌,
}
use save_the_date.HallPasses.Model.{RedeemResult}

pub record ManualParts : Type 0 where
  pub prefix : Text
  pub first : Text
  pub second : Text

pub record Screen : Type 0 where
  pub manual_parts : ManualParts
  pub fallback_value : Text
  pub use_fallback_entry : Bool
  pub result : Option RedeemResult
  pub error : Text
  pub is_camera_visible : Bool
  pub is_starting : Bool
  pub is_redeeming : Bool
  pub has_scanned : Bool
  pub is_unmounted : Bool
  pub posted : List Text

abbrev pub no_parts : ManualParts
no_parts = record { prefix = []; first = []; second = [] }

abbrev pub initial_screen : Screen
initial_screen = record {
  manual_parts = no_parts;
  fallback_value = [];
  use_fallback_entry = false;
  result = none;
  error = [];
  is_camera_visible = false;
  is_starting = false;
  is_redeeming = false;
  has_scanned = false;
  is_unmounted = false;
  posted = [];
}

-- `redeemQrValue(value)`, up to the request
unfoldable pub redeem_qr_value : Text → Screen → Screen
redeem_qr_value value s =
    if is_empty (trim value)
    then record s { error = codes "Scan or enter a QR value first." }
    else record s { error = []; result = none; is_redeeming = true; posted = value ∷ s.posted }

-- How the request ends: it fails, it is refused with the code and the error of the body, where the
-- body has them, or it is answered.
pub data Reply : Type 0 where
  connection_failed : Reply
  refused : Option Text → Option Text → Reply
  answered : RedeemResult → Reply

abbrev pub could_not_verify : Text
could_not_verify =
    codes "Could not verify this QR code. Reconcile an uncertain admission before retrying."

unfoldable pub refusal_message : Option Text → Option Text → Text
refusal_message (some c) (some e) =
    if same c (codes "LEGACY_WRITES_FROZEN") then e else could_not_verify
refusal_message (some c) none = could_not_verify
refusal_message none e = could_not_verify

abbrev closed : Screen → Screen
closed s = record s { is_redeeming = false; is_camera_visible = false }

-- The rest of `redeemQrValue`
unfoldable pub receive : Reply → Screen → Screen
receive connection_failed s = record (closed s) {
  error =
      codes
        "The connection failed. Admission may be uncertain; reconcile with the event lead before retrying.";
}
receive (refused c e) s = record (closed s) { error = refusal_message c e }
receive (answered r) s = record (closed s) { result = some r }

-- `openScanner()`
unfoldable pub open_scanner : Screen → Screen
open_scanner s = record s {
  error = [];
  result = none;
  is_camera_visible = true;
  is_starting = true;
  has_scanned = false;
}

-- `startScanner()`, up to the start of the camera
unfoldable pub start_scanner : Screen → Screen
start_scanner s = record s { is_starting = true }

-- The callback of the camera
unfoldable pub decoded : Text → Screen → Screen
decoded text s = if s.has_scanned then s else redeem_qr_value text (record s { has_scanned = true })

-- The rest of `startScanner`: the camera runs
unfoldable pub camera_started : Screen → Screen
camera_started s = if s.is_unmounted then s else record s { is_starting = false }

-- Its `catch`, by `window.isSecureContext`
unfoldable pub camera_failed : Bool → Screen → Screen
camera_failed is_secure s = if s.is_unmounted then s else record s {
  is_starting = false;
  is_camera_visible = false;
  error =
      if is_secure
      then codes "Camera access is unavailable. Check browser permissions, then try again."
      else codes
          "Camera access requires HTTPS on mobile browsers. Open the deployed HTTPS site or use manual entry.";
}

-- `handleManualSubmit`
unfoldable pub handle_manual_submit : Screen → Screen
handle_manual_submit s =
    let p = s.manual_parts in
    let structured_token = p.prefix ++ codes "-" ++ p.first ++ codes "-" ++ p.second in
    redeem_qr_value (if s.use_fallback_entry then s.fallback_value else structured_token) s

-- `resetScanner`
unfoldable pub reset_scanner : Screen → Screen
reset_scanner s = record s {
  result = none;
  error = [];
  manual_parts = no_parts;
  fallback_value = [];
  use_fallback_entry = false;
  is_camera_visible = false;
  has_scanned = false;
}

-- `scanNext`
unfoldable pub scan_next : Screen → Screen
scan_next s = open_scanner (reset_scanner s)

-- The effect that runs when the component is mounted, and its clean-up
unfoldable pub mounted : Bool → Screen → Screen
mounted is_mounted s = record s { is_unmounted = not is_mounted }

-- The button below the fields
unfoldable pub toggle_fallback : Screen → Screen
toggle_fallback s = record s { use_fallback_entry = not s.use_fallback_entry }
