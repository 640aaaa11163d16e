-- ===== src/Booking/Slots.antt =====
-- `adjustSlotReserved` and `appendStatusHistory` of src/services/booking.service.ts.
use booking_availability_pla.Shared.{
  ℕ, ℤ, abs, is_positive, ◌+◌, ◌-◌, String, Bool, ◌&&◌, Option, [], ◌∷◌, ◌++◌, leb, ◌==◌,
  if◌then◌else◌, count_where, update_where,
}
use booking_availability_pla.Errors.{conflict_error}
use booking_availability_pla.Model.{AvailabilitySlot, BookingStatus}
use booking_availability_pla.Service.{Action, ◌>>=◌, ◌>>◌, gets, modify, throw_if}

-- The `WHERE` clauses of the two statements. `capacity - reserved >= delta` is on signed columns,
-- so it is `reserved + delta <= capacity`.
abbrev pub can_reserve : ℕ → ℕ → ℕ → ℕ → AvailabilitySlot → Bool
can_reserve slot_id tenant_id delta expected_version s =
    s.id == slot_id
    && s.tenant_id == tenant_id
    && s.version == expected_version
    && leb (s.reserved_seats + delta) s.capacity

abbrev pub can_release : ℕ → ℕ → ℕ → ℕ → AvailabilitySlot → Bool
can_release slot_id tenant_id release expected_version s =
    s.id == slot_id
    && s.tenant_id == tenant_id
    && s.version == expected_version
    && leb release s.reserved_seats

abbrev pub take_seats : ℕ → AvailabilitySlot → AvailabilitySlot
take_seats delta s = record s { reserved_seats = s.reserved_seats + delta; version = s.version + 1 }

abbrev pub free_seats : ℕ → AvailabilitySlot → AvailabilitySlot
free_seats release s = record s {
  reserved_seats = s.reserved_seats - release;
  version = s.version + 1;
}

-- One `UPDATE` of the slots, and the error where it touched no row.
unfoldable pub update_slots :
    (AvailabilitySlot → Bool) → (AvailabilitySlot → AvailabilitySlot) → String → Action (Unit {0})
update_slots test change message = do
  updated ← gets (λ db. count_where test db.slots)
  modify (λ db. record db { slots = update_where test change db.slots })
  throw_if (updated == 0) (conflict_error message)

unfoldable pub adjust_slot_reserved : ℕ → ℕ → ℤ → ℕ → Action (Unit {0})
adjust_slot_reserved slot_id tenant_id delta expected_version =
    if is_positive delta
    then update_slots (can_reserve slot_id tenant_id (abs delta) expected_version)
        (take_seats (abs delta)) "Slot no longer available"
    else update_slots (can_release slot_id tenant_id (abs delta) expected_version)
        (free_seats (abs delta)) "Failed to release slot reservation"

unfoldable pub append_status_history :
    ℕ → ℕ → Option BookingStatus → BookingStatus → Option ℕ → Option String → Action (Unit {0})
append_status_history now booking_id from_status to_status actor_user_id reason = modify λ db.
    record db {
      history =
          db.history
          ++ record {
            booking_id = booking_id;
            from_status = from_status;
            to_status = to_status;
            actor_user_id = actor_user_id;
            reason = reason;
            created_at = now;
          }
            ∷ [];
    }
