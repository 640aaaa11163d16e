-- ===== src/Booking/Adjusting.antt =====
-- The outcomes of `adjustSlotReserved` and of `booking.update` in src/services/booking.service.ts.
use booking_availability_pla.Shared.{
  ℕ, zero, suc, pos, neg_ℕ, ◌<◌, ◌≡◌, refl, String, Bool, none, some, arith, find_first,
  update_where, update_where-none, count_where_pos, count_where, is_positive, true, false, ◌==◌,
}
use booking_availability_pla.Errors.{conflict_error, app, other}
use booking_availability_pla.Model.{AvailabilitySlot, Booking}
use booking_availability_pla.Service.{World, ok, err}
use booking_availability_pla.Booking.Slots.{
  can_reserve, can_release, take_seats, free_seats, update_slots, adjust_slot_reserved,
}
use booking_availability_pla.Booking.Views.{by_id, update_booking}

module _ (test : AvailabilitySlot → Bool) (change : AvailabilitySlot → AvailabilitySlot)
    (message : String) (w : World) where
  update_slots-none :
      find_first test w.db.slots ≡ none
      → update_slots test change message w ≡ (err (app (conflict_error message)), w)
  unfolding update_slots
  update_slots-none e =
      let (same, no_rows) = update_where-none test change w.db.slots e in rw (same, no_rows)

  nonzero : (n : ℕ) → 0 < n → (n == 0) ≡ false
  nonzero n h = ground arith

  update_slots-some :
      (s : AvailabilitySlot)
      → find_first test w.db.slots ≡ some s
      → update_slots test change message w
        ≡ (ok tt, record w { db = record w.db { slots = update_where test change w.db.slots } })
  unfolding update_slots
  update_slots-some s e =
      rw (nonzero (count_where test w.db.slots) (count_where_pos test w.db.slots s e))

adjust_release :
    (id tenant n version : ℕ)
    → adjust_slot_reserved id tenant (neg_ℕ n) version
      ≡ update_slots
          (can_release id tenant n version)
          (free_seats n)
          "Failed to release slot reservation"
unfolding adjust_slot_reserved
adjust_release id tenant zero version = refl
adjust_release id tenant (suc n) version = refl

module _ (id tenant n version : ℕ) (w : World) where
  pub take-none :
      0 < n
      → find_first (can_reserve id tenant n version) w.db.slots ≡ none
      → adjust_slot_reserved id tenant (pos n) version w
        ≡ (err (app (conflict_error "Slot no longer available")), w)
  unfolding adjust_slot_reserved
  take-none h e =
      let t : is_positive (pos n) ≡ true = ground arith in
      rw t (update_slots-none (can_reserve id tenant n version) (take_seats n) _ w e)

  pub take-some :
      (s : AvailabilitySlot)
      → 0 < n
      → find_first (can_reserve id tenant n version) w.db.slots ≡ some s
      → adjust_slot_reserved id tenant (pos n) version w ≡ (
        ok tt,
        record w {
          db = record w.db {
            slots = update_where (can_reserve id tenant n version) (take_seats n) w.db.slots;
          };
        },
      )
  unfolding adjust_slot_reserved
  take-some s h e =
      let t : is_positive (pos n) ≡ true = ground arith in
      rw t (update_slots-some (can_reserve id tenant n version) (take_seats n) _ w s e)

  pub free-none :
      find_first (can_release id tenant n version) w.db.slots ≡ none
      → adjust_slot_reserved id tenant (neg_ℕ n) version w
        ≡ (err (app (conflict_error "Failed to release slot reservation")), w)
  free-none e =
      rw (adjust_release id tenant n version)
        (update_slots-none (can_release id tenant n version) (free_seats n) _ w e)

  pub free-some :
      (s : AvailabilitySlot)
      → find_first (can_release id tenant n version) w.db.slots ≡ some s
      → adjust_slot_reserved id tenant (neg_ℕ n) version w ≡ (
        ok tt,
        record w {
          db = record w.db {
            slots = update_where (can_release id tenant n version) (free_seats n) w.db.slots;
          };
        },
      )
  free-some s e =
      rw (adjust_release id tenant n version)
        (update_slots-some (can_release id tenant n version) (free_seats n) _ w s e)

module _ (id : ℕ) (change : Booking → Booking) (w : World) where
  pub update_booking-some :
      (b : Booking)
      → find_first (by_id id) w.db.bookings ≡ some b
      → update_booking id change w ≡ (
        ok (change b),
        record w { db = record w.db { bookings = update_where (by_id id) change w.db.bookings } },
      )
  unfolding update_booking
  update_booking-some b e = rw e

  pub update_booking-none :
      find_first (by_id id) w.db.bookings ≡ none
      → update_booking id change w ≡ (err (other "Record to update not found"), w)
  unfolding update_booking
  update_booking-none e = rw e
