-- ===== src/Booking/State.antt =====
-- src/services/booking-state.ts
use booking_availability_pla.Shared.{
  Bool, false, ◌||◌, not, ◌<>◌, Option, none, some, List, [], ◌∷◌,
}
use booking_availability_pla.Errors.{conflict_error}
use booking_availability_pla.Model.{
  BookingStatus, reserved, confirmed, cancelled, expired, status_text, same_status,
}
use booking_availability_pla.Service.{Action, throw_if}

abbrev pub includes_status : List BookingStatus → BookingStatus → Bool
includes_status [] s = false
includes_status (t ∷ ts) s = same_status t s || includes_status ts s

-- `ALLOWED_TRANSITIONS`
abbrev pub allowed_transitions : BookingStatus → List BookingStatus
allowed_transitions reserved = confirmed ∷ cancelled ∷ expired ∷ []
allowed_transitions confirmed = cancelled ∷ []
allowed_transitions cancelled = []
allowed_transitions expired = []

unfoldable pub assert_transition : Option BookingStatus → BookingStatus → Action (Unit {0})
assert_transition none to =
    throw_if (not (same_status to reserved))
      (conflict_error ("Invalid initial booking status: expected RESERVED, got " <> status_text to))
assert_transition (some from) to = throw_if (not (includes_status (allowed_transitions from) to)) (
    conflict_error
      ("Cannot transition booking from " <> status_text from <> " to " <> status_text to))

unfoldable pub is_cancellable : BookingStatus → Bool
is_cancellable status = same_status status reserved || same_status status confirmed
