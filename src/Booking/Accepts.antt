-- ===== src/Booking/Accepts.antt =====
-- Requests that src/services/booking.service.ts grants.
use booking_availability_pla.Shared.{
  ℕ, ◌+◌, ◌<◌, ◌≤◌, ◌≡◌, Bool, true, false, ◌&&◌, none, some, arith, find_first, ltb, ◌==◌,
  find_first_sound, find_first-stronger,
}
use booking_availability_pla.Model.{AvailabilitySlot}
use booking_availability_pla.Pricing.Numbers.{Numeric}
use booking_availability_pla.Service.{World, ok}
use booking_availability_pla.Booking.Slots.{can_reserve}
use booking_availability_pla.Booking.Views.{to_booking_summary}
use booking_availability_pla.Booking.Reserve.{
  Draw, CreateBookingBody, SlotDetail, new_booking, find_slot, create_reservation,
}
use booking_availability_pla.Booking.Outcomes.{clashes, reserved_world, commit_reservation-done}
use booking_availability_pla.Booking.Atomic.{preview_of}

abbrev pub named : ℕ → ℕ → AvailabilitySlot → Bool
named id tenant s = s.id == id && s.tenant_id == tenant

module _ (w : World) (tenant : ℕ) where
  find_slot_sound :
      (id : ℕ) (d : SlotDetail)
      → find_slot tenant id w ≡ (ok d, w)
      → find_first (named id tenant) w.db.slots ≡ some d.slot
  unfolding find_slot
  find_slot_sound id d e = ground arith

  pub can_reserve-named :
      (s y : AvailabilitySlot) (id n : ℕ)
      → named id tenant s ≡ true
      → can_reserve s.id tenant n s.version y ≡ true
      → named id tenant y ≡ true
  can_reserve-named s y id n h e = ground arith

  pub can_reserve_self :
      (s : AvailabilitySlot) (id n : ℕ)
      → named id tenant s ≡ true
      → s.reserved_seats + n ≤ s.capacity
      → can_reserve s.id tenant n s.version s ≡ true
  can_reserve_self s id n h room = ground arith

  -- A reservation of a slot that was found goes through where the party is of at least one and fits,
  -- and the new row's identifier and reference are free.
  pub create_reservation-found :
      (num : Numeric) (draw : Draw) (user : ℕ) (body : CreateBookingBody) (d : SlotDetail)
      → find_slot tenant body.slot_id w ≡ (ok d, w)
      → 0 < body.party_size
      → d.slot.reserved_seats + body.party_size ≤ d.slot.capacity
      → find_first (clashes draw.booking_id draw.reference) w.db.bookings ≡ none
      → let preview = preview_of w num draw body d in
        create_reservation num draw tenant user body w ≡ (
          ok (to_booking_summary (new_booking draw tenant user body d.slot preview)),
          reserved_world draw tenant user body d.slot preview w,
        )
  unfolding create_reservation
  create_reservation-found num draw user body d e size room free =
      let found = find_slot_sound body.slot_id d e in
      let here = find_first_sound (named body.slot_id tenant) w.db.slots d.slot found in
      let fits : ltb d.slot.capacity (d.slot.reserved_seats + body.party_size) ≡ false =
        ground arith in
      let taken =
        find_first-stronger (can_reserve d.slot.id tenant body.party_size d.slot.version)
          (named body.slot_id tenant) w.db.slots d.slot
          (λ y k. can_reserve-named d.slot y body.slot_id body.party_size here k)
          (can_reserve_self d.slot body.slot_id body.party_size here room) found in
      rw (e, fits)
        (commit_reservation-done draw tenant user body d.slot (preview_of w num draw body d) w
          d.slot size taken free)
