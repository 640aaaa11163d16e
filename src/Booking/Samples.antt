-- ===== src/Booking/Samples.antt =====
-- The small database of the tests has its seat accounts in order.
use booking_availability_pla.Shared.{ℕ, arith, refl, Unique}
use booking_availability_pla.Fixtures.{world}
use booking_availability_pla.Model.{Booking}
use booking_availability_pla.Booking.Views.{BookingSummary}
use booking_availability_pla.Booking.Reserve.{Draw, CreateBookingBody}
use booking_availability_pla.Booking.Seats.{booking_key}
use booking_availability_pla.Booking.Accounting.{InAccounts}

abbrev pub no_base : ℕ → ℕ
no_base s = 0

pub world-Unique : Unique booking_key world.db.bookings
world-Unique = (((λ e. cc), tt), (tt, tt))

pub world-InAccounts : InAccounts no_base world
world-InAccounts = record {
  unique_slots = (tt, tt);
  unique_bookings = world-Unique;
  bounded = (omega arith, tt);
  balanced = (refl, tt);
}

abbrev pub draw : Draw
draw = record { now = 2000; ttl_seconds = 900; booking_id = 42; reference = "BK-NEW" }

abbrev pub four : CreateBookingBody
four = record { slot_id = 30; party_size = 4 }

-- The summary of a booking.
abbrev pub summary_of : Booking → BookingSummary
summary_of b = record {
  booking_ref = b.reference;
  status = b.status;
  party_size = b.party_size;
  total_price = b.total_price;
  reserved_until = b.reserved_until;
}
