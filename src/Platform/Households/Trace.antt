-- ===== src/Platform/Households/Trace.antt =====
-- Sequences of what households answer, what the couple does about it, and calls on the passes, in
-- the order in which their transactions lock the event.
use save_the_date.Base.{ℕ, List, [], ◌∷◌, Text}
use save_the_date.Platform.Households.{Response}
use save_the_date.Platform.Households.Submit.{submit}
use save_the_date.Platform.Households.Manage.{approve, remove}
use save_the_date.Platform.Households.Places.{places, Booked}
use save_the_date.Platform.Households.Ensuring.{StaysBooked-Leaves}
use save_the_date.Platform.Households.Answering.{StaysBooked-submit}
use save_the_date.Platform.Households.Managing.{StaysBooked-approve, StaysBooked-remove}
use save_the_date.Platform.Households.Correcting.{StaysBooked-correct}
use save_the_date.Platform.Households.Passing.{
  Leaves-issue, Leaves-revoke, Leaves-reissue, Leaves-redeem, Leaves-sweep,
}
use save_the_date.Platform.Admission.Model.{World, Ports, Circumstances}
use save_the_date.Platform.Admission.Trace.{
  Call, issuing, revoking, reissuing, redeeming, sweeping, correcting, perform,
}

-- A call of a household or of the couple, with the circumstances that it meets, or one on passes
pub data Request : Type 0 where
  submitting : Circumstances → List Text → Text → List Response → Text → Request
  approving : Text → Text → Text → ℕ → Request
  removing : Circumstances → Text → Text → ℕ → Request
  on_passes : Call → Request

-- What a request leaves behind, whether it returns or throws
unfoldable pub serve : Ports → Request → World → World
serve ports (submitting c hashes event input key) w = (submit ports c hashes event input key w).1
serve ports (approving actor event attendee version) w =
    (approve ports actor event attendee version w).1
serve ports (removing c actor attendee version) w = (remove c actor attendee version w).1
serve ports (on_passes call) w = perform ports call w

unfoldable pub serve_all : Ports → List Request → World → World
serve_all ports [] w = w
serve_all ports (r ∷ rs) w = serve_all ports rs (serve ports r w)

perform-Booked :
    (ports : Ports) (call : Call) (w : World)
    → Booked (places w.db)
    → Booked (places (perform ports call w).db)
unfolding perform
perform-Booked ports (issuing c actor attendee event key) w b =
    (StaysBooked-Leaves (Leaves-issue ports c actor attendee event key)).stays w b
perform-Booked ports (revoking c actor id version reason key) w b =
    (StaysBooked-Leaves (Leaves-revoke ports c actor id version reason key)).stays w b
perform-Booked ports (reissuing c actor id version reason key) w b =
    (StaysBooked-Leaves (Leaves-reissue ports c actor id version reason key)).stays w b
perform-Booked ports (redeeming c actor event input key) w b =
    (StaysBooked-Leaves (Leaves-redeem ports c actor event input key)).stays w b
perform-Booked ports (sweeping c) w b = (StaysBooked-Leaves (Leaves-sweep ports c)).stays w b
perform-Booked ports (correcting actor input key) w b =
    (StaysBooked-correct ports actor input key).stays w b

serve-Booked :
    (ports : Ports) (r : Request) (w : World)
    → Booked (places w.db)
    → Booked (places (serve ports r w).db)
unfolding serve
serve-Booked ports (submitting c hashes event input key) w b =
    (StaysBooked-submit ports c hashes event input key).stays w b
serve-Booked ports (approving actor event attendee version) w b =
    (StaysBooked-approve ports actor event attendee version).stays w b
serve-Booked ports (removing c actor attendee version) w b =
    (StaysBooked-remove c actor attendee version).stays w b
serve-Booked ports (on_passes call) w b = perform-Booked ports call w b

-- From booked places on, over any sequence of answers of households, approvals and removals of
-- guests, and issues, revocations, reissues, scans, corrections and sweeps of passes, whatever
-- their outcomes: the count of every event is that of its reservations and is within its capacity,
-- and no attendee has two places at an event.
pub serve_all-Booked :
    (ports : Ports) (rs : List Request) (w : World)
    → Booked (places w.db)
    → Booked (places (serve_all ports rs w).db)
unfolding serve_all
serve_all-Booked ports [] w b = b
serve_all-Booked ports (r ∷ rs) w b =
    serve_all-Booked ports rs (serve ports r w) (serve-Booked ports r w b)
