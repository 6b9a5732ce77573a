-- ===== src/Platform/Admission/Correcting.antt =====
-- A correction leaves passes and admissions alone.
use save_the_date.Base.{Option, none, some, Text}
use save_the_date.Platform.Admission.Model.{
  Event, Attendee, Corrected, to_confirmed, to_declined, CorrectionInput, Ports,
}
use save_the_date.Platform.Admission.Correct.{
  rename, correct_name, set_count, release, reserve, count_down, correct_declined, confirm_anew,
  correct_confirmed, set_state, correct_state, add_correction, correct_once, correct,
}
use save_the_date.Platform.Admission.Effects.{
  Keeps, Safe, Keeps-update, Safe-Keeps, Safe-bind, Safe-transaction,
}
use save_the_date.Platform.Admission.Steady.{guarding, Safe-once, Keeps-add_result}

Keeps-count_down : (i : CorrectionInput) (e : Event) → Keeps (count_down i e)
unfolding count_down set_count
Keeps-count_down i e = search (guarding, Keeps-update)

Keeps-correct_name : (i : CorrectionInput) → Keeps (correct_name i)
unfolding correct_name rename
Keeps-correct_name i = search (guarding, Keeps-update)

Keeps-correct_declined : (i : CorrectionInput) (e : Event) → Keeps (correct_declined i e)
unfolding correct_declined release
Keeps-correct_declined i e = search (guarding, Keeps-count_down, Keeps-update) depth 7

Keeps-confirm_anew : (i : CorrectionInput) (e : Event) → Keeps (confirm_anew i e)
unfolding confirm_anew reserve set_count
Keeps-confirm_anew i e = search (guarding, Keeps-update) depth 7

Keeps-correct_confirmed : (i : CorrectionInput) (e : Event) → Keeps (correct_confirmed i e)
unfolding correct_confirmed
Keeps-correct_confirmed i e = search (guarding, Keeps-confirm_anew)

Keeps-correct_state :
    (i : CorrectionInput) (e : Event) (o : Option Corrected) → Keeps (correct_state i e o)
unfolding correct_state set_state
Keeps-correct_state i e none = search guarding
Keeps-correct_state i e (some to_declined) = search (guarding, Keeps-correct_declined, Keeps-update)
Keeps-correct_state i e (some to_confirmed) =
    search (guarding, Keeps-correct_confirmed, Keeps-update)

Keeps-correct_once :
    (actor : Text) (i : CorrectionInput) (a : Attendee) (e : Event)
    → Keeps (correct_once actor i a e)
unfolding correct_once add_correction
Keeps-correct_once actor i a e =
    search (guarding, Keeps-correct_name, Keeps-correct_state, Keeps-update) depth 9

pub Safe-correct :
    (ports : Ports) (actor : Text) (i : CorrectionInput) (key : Text)
    → Safe (correct ports actor i key)
unfolding correct
Safe-correct ports actor i key =
    search
      (
        guarding, Safe-transaction, Safe-bind, Safe-once, Safe-Keeps, Keeps-correct_once,
        Keeps-add_result,
      )
      depth 12
