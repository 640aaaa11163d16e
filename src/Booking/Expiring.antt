-- ===== src/Booking/Expiring.antt =====
-- What the expiry transaction of src/services/booking.service.ts does on every branch.
use booking_availability_pla.Shared.{
  ℕ, ◌≡◌, Bool, true, false, none, some, [], ◌∷◌, ◌++◌, arith, find_first, update_where, ◌==◌, ◌&&◌,
  count_where, update_where-none, count_where_pos,
}
use booking_availability_pla.Errors.{conflict_error, app}
use booking_availability_pla.Model.{Booking, AvailabilitySlot, reserved, expired, expired_event}
use booking_availability_pla.Service.{World, ok, err, booking_webhook, availability_invalidation}
use booking_availability_pla.Audit.{audit_row}
use booking_availability_pla.Booking.Slots.{can_release, free_seats, append_status_history}
use booking_availability_pla.Booking.Expire.{
  StaleBooking, set_expired, claims, expired_audit, release_claimed, expire_reservation,
}
use booking_availability_pla.Booking.Adjusting.{free-none, free-some}
use booking_availability_pla.Booking.Outcomes.{history_row}

module _ (now : ℕ) (b : StaleBooking) (w : World) where
  abbrev claimed_world : World
  claimed_world = record w {
    db = record w.db { bookings = update_where (claims now b.id) set_expired w.db.bookings };
  }

  abbrev pub its_slot : AvailabilitySlot → Bool
  its_slot s = s.id == b.slot_id && s.tenant_id == b.tenant_id

  abbrev pub frees : ℕ → AvailabilitySlot → Bool
  frees version = can_release b.slot_id b.tenant_id b.party_size version

  -- The state after an expiry, of a slot at a version.
  abbrev pub expired_world : ℕ → World
  expired_world version = record {
    db = record w.db {
      slots = update_where (frees version) (free_seats b.party_size) w.db.slots;
      bookings = update_where (claims now b.id) set_expired w.db.bookings;
      history =
          w.db.history
          ++ history_row now b.id (some reserved) expired none (some "Reservation hold expired")
            ∷ [];
      audit_logs = w.db.audit_logs ++ audit_row now (expired_audit b) ∷ [];
    };
    queued =
        (w.queued ++ booking_webhook b.tenant_id expired_event b.id ∷ [])
        ++ availability_invalidation b.tenant_id ∷ [];
  }

  -- Confirmed, cancelled or extended since it was read: left alone.
  pub expire_reservation-unclaimed :
      find_first (claims now b.id) w.db.bookings ≡ none → expire_reservation now b w ≡ (ok false, w)
  unfolding expire_reservation
  expire_reservation-unclaimed e =
      let (same, no_rows) = update_where-none (claims now b.id) set_expired w.db.bookings e in
      rw (same, no_rows)

  module _ (x : Booking) (found : find_first (claims now b.id) w.db.bookings ≡ some x) where
    claimed : (count_where (claims now b.id) w.db.bookings == 0) ≡ false
    claimed = let positive = count_where_pos (claims now b.id) w.db.bookings x found in ground arith

    pub expire_reservation-slotless :
        find_first its_slot w.db.slots ≡ none
        → expire_reservation now b w
          ≡ (err (app (conflict_error "Slot not found while expiring reservation")), w)
    unfolding expire_reservation release_claimed
    expire_reservation-slotless e = rw claimed (rw e)

    pub expire_reservation-refused :
        (s : AvailabilitySlot)
        → find_first its_slot w.db.slots ≡ some s
        → find_first (frees s.version) w.db.slots ≡ none
        → expire_reservation now b w
          ≡ (err (app (conflict_error "Failed to release slot reservation")), w)
    unfolding expire_reservation release_claimed
    expire_reservation-refused s e r =
        rw claimed
          (rw e (rw (free-none b.slot_id b.tenant_id b.party_size s.version claimed_world r)))

    pub expire_reservation-done :
        (s s' : AvailabilitySlot)
        → find_first its_slot w.db.slots ≡ some s
        → find_first (frees s.version) w.db.slots ≡ some s'
        → expire_reservation now b w ≡ (ok true, expired_world s.version)
    unfolding expire_reservation release_claimed append_status_history
    expire_reservation-done s s' e r =
        rw claimed
          (rw e (rw (free-some b.slot_id b.tenant_id b.party_size s.version claimed_world s' r)))
