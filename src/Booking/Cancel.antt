-- ===== src/Booking/Cancel.antt =====
-- `cancelReservation` of src/services/booking.service.ts, in the two parts that other requests can
-- come between: what it reads and checks, and its transaction with what follows.
use booking_availability_pla.Shared.{
  ℕ, neg_ℕ, String, ◌<>◌, not, none, some, [], ◌∷◌, ◌==◌, find_first,
}
use booking_availability_pla.Errors.{conflict_error}
use booking_availability_pla.Model.{
  json_object, text, Booking, AvailabilitySlot, cancelled, booking_cancelled, booking_entity,
  cancelled_event, status_text,
}
use booking_availability_pla.Service.{
  Action, ◌>>=◌, ◌>>◌, gets, throw_if, pure, enqueue, booking_webhook, availability_invalidation,
}
use booking_availability_pla.Audit.{AuditContext, with_audited_transaction}
use booking_availability_pla.Booking.State.{assert_transition, is_cancellable}
use booking_availability_pla.Booking.Slots.{adjust_slot_reserved, append_status_history}
use booking_availability_pla.Booking.Views.{
  BookingSummary, to_booking_summary, find_owned_booking, update_booking, or_fault,
}

abbrev pub set_cancelled : Booking → Booking
set_cancelled b = record b { status = cancelled; reserved_until = none }

-- The booking, and the version of its slot (`slot: { select: { version: true } }`).
unfoldable pub check_cancel : ℕ → ℕ → String → Action (Booking × ℕ)
check_cancel tenant_id user_id reference = do
  booking ← find_owned_booking tenant_id user_id reference
  s ← gets (λ db. find_first (λ (x : AvailabilitySlot). x.id == booking.slot_id) db.slots)
  slot ← or_fault s
  throw_if (not (is_cancellable booking.status))
      (conflict_error ("Cannot cancel booking in " <> status_text booking.status <> " status"))
  assert_transition (some booking.status) cancelled
  pure (booking, slot.version)

-- The body of the transaction.
unfoldable pub write_cancelled : ℕ → ℕ → ℕ → String → Booking → ℕ → Action Booking
write_cancelled now tenant_id user_id reason booking version = do
  adjust_slot_reserved booking.slot_id tenant_id (neg_ℕ booking.party_size) version
  done ← update_booking booking.id set_cancelled
  append_status_history now booking.id (some booking.status) cancelled (some user_id) (some reason)
  pure done

abbrev pub cancelled_audit : ℕ → ℕ → String → Booking → AuditContext
cancelled_audit tenant_id user_id reason booking = record {
  event_type = booking_cancelled;
  tenant_id = some tenant_id;
  actor_user_id = some user_id;
  entity_type = booking_entity;
  entity_id = some booking.id;
  metadata = json_object (
      ("booking_ref", text booking.reference)
      ∷ ("reason", text reason)
      ∷ ("previousStatus", text (status_text booking.status))
      ∷ []);
}

unfoldable pub commit_cancel : ℕ → ℕ → ℕ → String → Booking → ℕ → Action BookingSummary
commit_cancel now tenant_id user_id reason booking version = do
  updated ←
      with_audited_transaction now (write_cancelled now tenant_id user_id reason booking version)
        (λ _. cancelled_audit tenant_id user_id reason booking)
  enqueue (booking_webhook tenant_id cancelled_event updated.id)
  enqueue (availability_invalidation tenant_id)
  pure (to_booking_summary updated)

unfoldable pub cancel_reservation : ℕ → ℕ → ℕ → String → String → Action BookingSummary
cancel_reservation now tenant_id user_id reference reason = do
  checked ← check_cancel tenant_id user_id reference
  commit_cancel now tenant_id user_id reason checked.0 checked.1
