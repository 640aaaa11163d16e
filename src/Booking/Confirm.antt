-- ===== src/Booking/Confirm.antt =====
-- `confirmReservation` of src/services/booking.service.ts, in the two parts that other requests can
-- come between: what it reads and checks, and its transaction with what follows.
use booking_availability_pla.Shared.{ℕ, String, Bool, false, Option, none, some, [], ◌∷◌, ltb}
use booking_availability_pla.Errors.{conflict_error}
use booking_availability_pla.Model.{
  json_object, text, Booking, confirmed, booking_confirmed, booking_entity, confirmed_event,
  status_text,
}
use booking_availability_pla.Service.{Action, ◌>>=◌, ◌>>◌, throw_if, pure, enqueue, booking_webhook}
use booking_availability_pla.Audit.{AuditContext, with_audited_transaction}
use booking_availability_pla.Booking.State.{assert_transition}
use booking_availability_pla.Booking.Slots.{append_status_history}
use booking_availability_pla.Booking.Views.{
  BookingSummary, to_booking_summary, find_owned_booking, update_booking,
}

-- `reservedUntil && reservedUntil < new Date()`
abbrev pub is_overdue : ℕ → Option ℕ → Bool
is_overdue now none = false
is_overdue now (some t) = ltb t now

abbrev pub set_confirmed : Booking → Booking
set_confirmed b = record b { status = confirmed; reserved_until = none }

unfoldable pub check_confirm : ℕ → ℕ → ℕ → String → Action Booking
check_confirm now tenant_id user_id reference = do
  booking ← find_owned_booking tenant_id user_id reference
  assert_transition (some booking.status) confirmed
  throw_if (is_overdue now booking.reserved_until) (conflict_error "Reservation hold has expired")
  pure booking

-- The body of the transaction.
unfoldable pub write_confirmed : ℕ → ℕ → Booking → Action Booking
write_confirmed now user_id booking = do
  done ← update_booking booking.id set_confirmed
  append_status_history now booking.id (some booking.status) confirmed (some user_id) none
  pure done

abbrev pub confirmed_audit : ℕ → ℕ → Booking → AuditContext
confirmed_audit tenant_id user_id booking = record {
  event_type = booking_confirmed;
  tenant_id = some tenant_id;
  actor_user_id = some user_id;
  entity_type = booking_entity;
  entity_id = some booking.id;
  metadata = json_object (
      ("booking_ref", text booking.reference)
      ∷ ("previousStatus", text (status_text booking.status))
      ∷ []);
}

unfoldable pub commit_confirm : ℕ → ℕ → ℕ → Booking → Action BookingSummary
commit_confirm now tenant_id user_id booking = do
  updated ←
      with_audited_transaction now (write_confirmed now user_id booking)
        (λ _. confirmed_audit tenant_id user_id booking)
  enqueue (booking_webhook tenant_id confirmed_event updated.id)
  pure (to_booking_summary updated)

unfoldable pub confirm_reservation : ℕ → ℕ → ℕ → String → Action BookingSummary
confirm_reservation now tenant_id user_id reference = do
  booking ← check_confirm now tenant_id user_id reference
  commit_confirm now tenant_id user_id booking
