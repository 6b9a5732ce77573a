-- ===== src/Scanner/Session.antt =====
-- A session at the door as the sequence of what happens to the component: what the camera reads,
-- how requests end, what is typed, and which buttons are pressed.
pub mod Laws
use save_the_date.Base.{
  ℕ, suc, zero, ◌+◌, ◌≤◌, ◌≡◌, refl, Bool, true, false, not, Option, none, some, ltb, take, List,
  [], ◌∷◌, Text, length, count, trim, is_empty, if◌then◌else◌, Bool-cases, inl, inr, arith,
}
use save_the_date.Scanner.Screen.{
  Screen, ManualParts, Reply, connection_failed, refused, answered, redeem_qr_value, receive,
  open_scanner, start_scanner, decoded, camera_started, camera_failed, handle_manual_submit,
  reset_scanner, scan_next, mounted, toggle_fallback,
}
use save_the_date.Scanner.Entry.{
  Part, max_length, field_limit, enter_part, handle_structured_change, handle_fallback_change,
  change_long, set_cleaned, apply_full_token, apply_match, find_token,
}

pub data Event : Type 0 where
  decoding : Text → Event
  replying : Reply → Event
  starting started : Event
  failing : Bool → Event
  mounting : Bool → Event
  typing : Part → Text → Event
  typing_raw : Text → Event
  toggling submitting opening resetting scanning_next : Event

module _ (upper : Text → Text) where
  unfoldable pub step : Event → Screen → Screen
  step (decoding text) s = decoded text s
  step (replying reply) s = receive reply s
  step starting s = start_scanner s
  step started s = camera_started s
  step (failing is_secure) s = camera_failed is_secure s
  step (mounting is_mounted) s = mounted is_mounted s
  step (typing part value) s = enter_part upper part value s
  step (typing_raw value) s = handle_fallback_change upper value s
  step toggling s = toggle_fallback s
  step submitting s = handle_manual_submit s
  step opening s = open_scanner s
  step resetting s = reset_scanner s
  step scanning_next s = scan_next s

  unfoldable pub play : List Event → Screen → Screen
  play [] s = s
  play (e ∷ es) s = play es (step e s)
