-- ===== src/Scanner/Session/Laws.antt =====
-- How many requests a session sends.
use save_the_date.Base.{
  ℕ, ◌+◌, ◌≤◌, ◌≡◌, refl, Bool, true, false, Option, none, some, ltb, take, List, [], ◌∷◌, Text,
  length, count, if◌then◌else◌, Bool-cases, inl, inr, arith,
}
use save_the_date.Scanner.Screen.{
  Screen, ManualParts, Reply, connection_failed, refused, answered, redeem_qr_value, receive,
  open_scanner, start_scanner, decoded, camera_started, camera_failed, handle_manual_submit,
  reset_scanner, scan_next, mounted, toggle_fallback,
}
use save_the_date.Scanner.Entry.{
  Part, max_length, field_limit, enter_part, handle_structured_change, handle_fallback_change,
  change_long, set_cleaned, apply_full_token, apply_match, find_token,
}
use save_the_date.Scanner.Session.{
  Event, decoding, replying, typing, submitting, opening, resetting, scanning_next, step, play,
}

-- The buttons: one that sends, or one that lets the camera read once more
abbrev pub is_button : Event → Bool
is_button submitting = true
is_button opening = true
is_button resetting = true
is_button scanning_next = true
is_button _ = false

-- What the camera may still send
abbrev left : Screen → ℕ
left s = if s.has_scanned then 0 else 1

abbrev total : Screen → ℕ
total s = length s.posted + left s

redeem_qr_value-total : (value : Text) (s : Screen) → total (redeem_qr_value value s) ≤ total s + 1
unfolding redeem_qr_value
redeem_qr_value-total value s = ground arith

typed-total :
    (upper : Text → Text) (part : Part) (value : Text) (s : Screen) (o : Option ManualParts)
    → total (change_long upper part value s (apply_match upper s o)) ≡ total s
unfolding change_long apply_match set_cleaned
typed-total upper part value s none = refl
typed-total upper part value s (some parts) = refl

typing-total :
    (upper : Text → Text) (part : Part) (value : Text) (s : Screen)
    → total (handle_structured_change upper part value s) ≡ total s
unfolding handle_structured_change apply_full_token set_cleaned
typing-total upper part value s = elim (Bool-cases (ltb (max_length part) (length value))) [
  | inl long ↦ rw long (typed-total upper part value s (find_token (upper value)))
  | inr short ↦ rw short refl
]

receive-total : (r : Reply) (s : Screen) → total (receive r s) ≡ total s
unfolding receive
receive-total connection_failed s = refl
receive-total (refused c e) s = refl
receive-total (answered r) s = refl

step-total :
    (upper : Text → Text) (e : Event) (s : Screen)
    → total (step upper e s) ≤ total s + (if is_button e then 1 else 0)
unfolding step enter_part decoded camera_started camera_failed open_scanner reset_scanner scan_next
    start_scanner mounted toggle_fallback handle_fallback_change handle_manual_submit
step-total upper (decoding text) s = elim (Bool-cases s.has_scanned) [
  | inl again ↦ rw again (omega arith)
  | inr first ↦
      rw first (omega (arith, redeem_qr_value-total text (record s { has_scanned = true })))
]
step-total upper (replying reply) s = omega (arith, receive-total reply s)
step-total upper (typing part value) s =
    omega (arith, typing-total upper part (take (field_limit part) value) s)
step-total upper submitting s = redeem_qr_value-total _ s
step-total upper e s = ground arith

play-total :
    (upper : Text → Text) (es : List Event) (s : Screen)
    → total (play upper es s) ≤ total s + count is_button es
unfolding play
play-total upper [] s = omega arith
play-total upper (e ∷ es) s =
    ground (arith, step-total upper e s, play-total upper es (step upper e s))

-- Over any sequence of events, the values that are sent are at most as many as the presses of a
-- button that sends or that opens or resets the camera, and one more: however often the camera
-- reads a code between two presses, one request follows.
pub play-posted-le :
    (upper : Text → Text) (es : List Event) (s : Screen)
    → length (play upper es s).posted ≤ length s.posted + 1 + count is_button es
play-posted-le upper es s = let bound = play-total upper es s in ground arith
