-- ===== src/Booking/Tests.antt =====
-- Runs of src/services/booking.service.ts on a small database.
use booking_availability_pla.Shared.{◌≡◌, refl, [], ◌∷◌, arith}
use booking_availability_pla.Errors.{app, conflict_error, not_found_error}
use booking_availability_pla.Service.{World, Result, err}
use booking_availability_pla.Booking.Samples.{no_base, world-Unique, world-InAccounts, draw, four}
use booking_availability_pla.Fixtures.{world, held_booking, sure_booking, fixed_point, morning, db}
use booking_availability_pla.Booking.State.{assert_transition}
use booking_availability_pla.Booking.Slots.{free_seats}
use booking_availability_pla.Booking.Views.{BookingSummary}
use booking_availability_pla.Booking.Reserve.{CreateBookingBody, find_slot, create_reservation}
use booking_availability_pla.Booking.Confirm.{check_confirm, commit_confirm, confirm_reservation}
use booking_availability_pla.Booking.Cancel.{set_cancelled, check_cancel, cancel_reservation}
use booking_availability_pla.Booking.Expire.{expire_stale_reservations}
use booking_availability_pla.Booking.Accounting.{InAccounts, KeepsAccounts}
use booking_availability_pla.Booking.Handlers.{
  create_reservation-Accounts, confirm_reservation-Accounts, cancel_reservation-Accounts,
  expire_stale_reservations-Accounts,
}
use booking_availability_pla.Booking.Atomic.{
  create_reservation_atomic, confirm_reservation_atomic, cancel_reservation_atomic,
}
use booking_availability_pla.Booking.Lost.{commit_confirm-lost}

create_reservation-Accounts_example :
    KeepsAccounts no_base (create_reservation fixed_point draw 1 10 four world)
create_reservation-Accounts_example =
    create_reservation-Accounts no_base world world-InAccounts fixed_point draw 1 10 four
      (omega arith)

confirm_reservation-Accounts_example :
    KeepsAccounts no_base (confirm_reservation 2000 1 10 "BK-HELD" world)
confirm_reservation-Accounts_example =
    confirm_reservation-Accounts no_base world world-InAccounts 2000 1 10 "BK-HELD"

cancel_reservation-Accounts_example :
    KeepsAccounts no_base (cancel_reservation 2000 1 10 "BK-SURE" "ill" world)
cancel_reservation-Accounts_example =
    cancel_reservation-Accounts no_base world world-InAccounts 2000 1 10 "BK-SURE" "ill"

expire_stale_reservations-Accounts_example :
    KeepsAccounts no_base (expire_stale_reservations 9000 world)
expire_stale_reservations-Accounts_example =
    expire_stale_reservations-Accounts no_base 9000 world world-InAccounts

abbrev nine : CreateBookingBody
nine = record { slot_id = 30; party_size = 9 }

abbrev full : Result BookingSummary × World
full = (err (app (conflict_error "Slot no longer available")), world)

-- Nine guests do not fit into the five seats that are left.
nine_refused : create_reservation fixed_point draw 1 10 nine world ≡ full
unfolding create_reservation find_slot
nine_refused = refl

create_reservation_atomic_example : world ≡ world
create_reservation_atomic_example =
    create_reservation_atomic world fixed_point draw 1 10 nine
      (app (conflict_error "Slot no longer available")) world (omega arith) nine_refused

-- Four guests get ten per cent off 200.00.
abbrev overdue : Result BookingSummary × World
overdue = (err (app (conflict_error "Reservation hold has expired")), world)

late_refused : confirm_reservation 6000 1 10 "BK-HELD" world ≡ overdue
unfolding confirm_reservation check_confirm assert_transition
late_refused = refl

confirm_reservation_atomic_example : world ≡ world
confirm_reservation_atomic_example =
    confirm_reservation_atomic world 6000 1 10 "BK-HELD"
      (app (conflict_error "Reservation hold has expired")) world world-Unique late_refused

abbrev unknown : Result BookingSummary × World
unknown = (err (app (not_found_error "Booking not found")), world)

unknown_refused : cancel_reservation 2000 1 11 "BK-SURE" "ill" world ≡ unknown
unfolding cancel_reservation check_cancel
unknown_refused = refl

cancel_reservation_atomic_example : world ≡ world
cancel_reservation_atomic_example =
    cancel_reservation_atomic world 2000 1 11 "BK-SURE" "ill"
      (app (not_found_error "Booking not found")) world world-Unique unknown_refused

-- The held booking was cancelled, and its two seats were given back, after a confirmation had read it.
abbrev cancelled_first : World
cancelled_first = record world {
  db = record db {
    bookings = set_cancelled held_booking ∷ sure_booking ∷ [];
    slots = free_seats 2 morning ∷ [];
  };
}

cancelled_first-InAccounts : InAccounts no_base cancelled_first
cancelled_first-InAccounts = record {
  unique_slots = (tt, tt);
  unique_bookings = (((λ e. cc), tt), (tt, tt));
  bounded = (omega arith, tt);
  balanced = (refl, tt);
}

commit_confirm-lost_example :
    ¬ KeepsAccounts no_base (commit_confirm 2000 1 10 held_booking cancelled_first)
commit_confirm-lost_example =
    commit_confirm-lost no_base cancelled_first cancelled_first-InAccounts 2000 1 10 held_booking
      (set_cancelled held_booking) (free_seats 2 morning) refl refl (omega arith) refl
