-- ===== src/Booking/WorkerTests.antt =====
-- Runs of the expiry job of src/workers/booking-expiry.worker.ts on a small database.
use booking_availability_pla.Shared.{◌-◌, min, ◌≡◌, refl, arith, [], ◌∷◌, map}
use booking_availability_pla.Model.{Booking, expired, confirmed}
use booking_availability_pla.Service.{World, ok}
use booking_availability_pla.Booking.Samples.{no_base, world-InAccounts}
use booking_availability_pla.Fixtures.{world, morning}
use booking_availability_pla.Booking.Slots.{
  update_slots, adjust_slot_reserved, append_status_history,
}
use booking_availability_pla.Booking.Expire.{
  stale_batch, expire_each, expire_reservation, release_claimed, expire_stale_reservations,
}
use booking_availability_pla.Booking.Progress.{IsSound}
use booking_availability_pla.Booking.Stale.{stale_count}
use booking_availability_pla.Booking.Draining.{expire_stale_reservations-count}
use booking_availability_pla.Booking.Worker.{run_job, poll, poll-drained}

world-IsSound : IsSound no_base world
world-IsSound = record {
  accounts = world-InAccounts;
  slotted = ((morning, refl), ((morning, refl), tt));
}

-- The hold of the one booking runs out at 5000; a job at 4000 leaves it, a job at 6000 expires it.
held_expires :
    map (λ (b : Booking). b.status) (poll (4000 ∷ 6000 ∷ []) world).db.bookings
    ≡ expired ∷ confirmed ∷ []
unfolding poll run_job expire_stale_reservations expire_each stale_batch expire_reservation
    release_claimed adjust_slot_reserved update_slots append_status_history
held_expires = refl

expire_stale_reservations-count_example :
    (w' : World) × (expire_stale_reservations 9000 world
      ≡ (ok (min 50 (stale_count 9000 world)), w'))
    × (stale_count 9000 w' ≡ stale_count 9000 world - 50)
    × IsSound no_base w'
expire_stale_reservations-count_example =
    expire_stale_reservations-count 9000 no_base world world-IsSound

poll-drained_example : stale_count 6000 (poll (7000 ∷ 8000 ∷ []) world) ≡ 0
poll-drained_example =
    poll-drained no_base 6000 9000 (7000 ∷ 8000 ∷ []) world (omega arith)
      ((omega arith, omega arith), ((omega arith, omega arith), tt)) (omega arith) world-IsSound
