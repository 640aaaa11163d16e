-- ===== src/Booking/TenantTests.antt =====
-- Two tenants with bookings of src/services/booking.service.ts on a small database.
use booking_availability_pla.Shared.{◌≡◌, refl, arith, none, [], ◌∷◌, length, Unique}
use booking_availability_pla.Model.{Booking, AvailabilitySlot, confirmed}
use booking_availability_pla.Service.{World}
use booking_availability_pla.Fixtures.{
  db, morning, booking_of, held_booking, sure_booking, fixed_point,
}
use booking_availability_pla.Booking.Seats.{booking_key}
use booking_availability_pla.Booking.Tenants.{
  cancel, IsApart, foreign_bookings, run_call, run_call-IsApart,
}

abbrev their_slot : AvailabilitySlot
their_slot = record morning { id = 31; tenant_id = 2 }

-- Another tenant's booking with the reference of one of this tenant's.
abbrev their_booking : Booking
their_booking = record (booking_of 43 "BK-SURE" 2 confirmed none) { tenant_id = 2; slot_id = 31 }

abbrev world : World
world = record {
  db = record db {
    slots = their_slot ∷ morning ∷ [];
    bookings = their_booking ∷ held_booking ∷ sure_booking ∷ [];
  };
  queued = [];
}

world-Unique : Unique booking_key world.db.bookings
world-Unique =
    (((λ e. omega arith), ((λ e. omega arith), tt)), (((λ e. omega arith), tt), (tt, tt)))

one_foreign : length (foreign_bookings 1 world) ≡ 1
one_foreign = refl

run_call-IsApart_example :
    IsApart 1 world (run_call fixed_point 1 10 (cancel 2000 "BK-SURE" "ill") world)
run_call-IsApart_example =
    run_call-IsApart fixed_point 1 10 (cancel 2000 "BK-SURE" "ill") world world-Unique tt
