-- ===== src/Booking/VersionTests.antt =====
-- Runs of two requests of src/services/booking.service.ts that have read one slot at one version.
use booking_availability_pla.Shared.{ℕ, ◌≡◌, refl, arith, some, none, pos, []}
use booking_availability_pla.Errors.{app, conflict_error}
use booking_availability_pla.Model.{reserved, cancelled}
use booking_availability_pla.Service.{World, ok, err}
use booking_availability_pla.Fixtures.{world, morning, sure_booking}
use booking_availability_pla.Pricing.Preview.{PricingPreview}
use booking_availability_pla.Booking.Slots.{
  update_slots, adjust_slot_reserved, append_status_history,
}
use booking_availability_pla.Booking.Views.{BookingSummary, to_booking_summary, update_booking}
use booking_availability_pla.Booking.Reserve.{
  Draw, CreateBookingBody, create_booking, reserve_seats, commit_reservation,
}
use booking_availability_pla.Booking.Cancel.{write_cancelled, commit_cancel}
use booking_availability_pla.Booking.Versions.{commit_reservation-once, commit_cancel-once}

abbrev draw : ℕ → Draw
draw id = record { now = 2000; ttl_seconds = 900; booking_id = id; reference = "BK-NEW" }

abbrev party : ℕ → CreateBookingBody
party n = record { slot_id = 30; party_size = n }

abbrev preview : PricingPreview
preview = record {
  party_size = 2;
  base_price_per_person = pos 5000;
  subtotal = pos 10000;
  adjustments = [];
  total_price = pos 10000;
}

abbrev two_summary : BookingSummary
two_summary = record {
  booking_ref = "BK-NEW";
  status = reserved;
  party_size = 2;
  total_price = pos 10000;
  reserved_until = some 902000;
}

abbrev two_world : World
two_world = (commit_reservation (draw 42) 1 10 (party 2) morning preview world).1

two_reserved :
    commit_reservation (draw 42) 1 10 (party 2) morning preview world ≡ (ok two_summary, two_world)
unfolding commit_reservation reserve_seats adjust_slot_reserved update_slots create_booking
    append_status_history to_booking_summary
two_reserved = refl

commit_reservation-once_example :
    commit_reservation (draw 43) 1 11 (party 1) morning preview two_world
    ≡ (err (app (conflict_error "Slot no longer available")), two_world)
commit_reservation-once_example =
    commit_reservation-once (draw 42) 1 10 (party 2) morning preview world two_world two_summary
      (omega arith) two_reserved (draw 43) 1 11 (party 1) preview (tt, tt) (omega arith)

abbrev sure_summary : BookingSummary
sure_summary = record {
  booking_ref = "BK-SURE";
  status = cancelled;
  party_size = 3;
  total_price = pos 10000;
  reserved_until = none;
}

abbrev cancelled_once : World
cancelled_once = (commit_cancel 2000 1 10 "ill" sure_booking 3 world).1

cancels : commit_cancel 2000 1 10 "ill" sure_booking 3 world ≡ (ok sure_summary, cancelled_once)
unfolding commit_cancel write_cancelled adjust_slot_reserved update_slots update_booking
    append_status_history to_booking_summary
cancels = refl

commit_cancel-once_example :
    commit_cancel 2001 1 10 "ill" sure_booking 3 cancelled_once
    ≡ (err (app (conflict_error "Failed to release slot reservation")), cancelled_once)
commit_cancel-once_example =
    commit_cancel-once 2000 1 10 "ill" sure_booking 3 world cancelled_once sure_summary cancels 2001
      1 10 "ill" sure_booking (tt, tt) refl
