-- ===== src/Booking/RaceTests.antt =====
-- A cancellation and a reservation of src/services/booking.service.ts that come between each other.
use booking_availability_pla.Shared.{◌≡◌, refl, arith, [], ◌∷◌, map}
use booking_availability_pla.Model.{AvailabilitySlot}
use booking_availability_pla.Service.{World, ok}
use booking_availability_pla.Booking.Samples.{no_base, world-InAccounts}
use booking_availability_pla.Fixtures.{world, morning, tour, sure_booking, fixed_point, db}
use booking_availability_pla.Booking.State.{assert_transition, is_cancellable}
use booking_availability_pla.Booking.Slots.{
  update_slots, adjust_slot_reserved, append_status_history,
}
use booking_availability_pla.Booking.Reserve.{
  Draw, CreateBookingBody, SlotDetail, find_slot, active_rules, create_booking, reserve_seats,
  commit_reservation,
}
use booking_availability_pla.Booking.Cancel.{check_cancel, write_cancelled, commit_cancel}
use booking_availability_pla.Booking.Accounting.{InAccounts}
use booking_availability_pla.Booking.Atomic.{preview_of}
use booking_availability_pla.Booking.Races.{
  Pending, reserving, cancelling, commit, reads_slot, reads_active, System, read, commits, Run,
  stop, then,
}
use booking_availability_pla.Booking.Interleaving.{IsHeld, Run-Accounts}
use booking_availability_pla.Booking.Refining.{IsReserved, Refines, Run-Refines}

abbrev draw : Draw
draw = record { now = 2000; ttl_seconds = 900; booking_id = 42; reference = "BK-NEW" }

abbrev four : CreateBookingBody
four = record { slot_id = 30; party_size = 4 }

abbrev detail : SlotDetail
detail = record { slot = morning; experience = tour; rules = active_rules 5 db }

slot_read : find_slot 1 30 world ≡ (ok detail, world)
unfolding find_slot
slot_read = refl

booking_read : check_cancel 1 10 "BK-SURE" world ≡ (ok (sure_booking, 3), world)
unfolding check_cancel assert_transition is_cancellable
booking_read = refl

abbrev reservation : Pending
reservation = reserving draw 1 10 four morning (preview_of world fixed_point draw four detail)

abbrev cancellation : Pending
cancellation = cancelling 2000 1 10 "ill" sure_booking 3

abbrev both_read : System
both_read = record { world = world; pending = reservation ∷ cancellation ∷ [] }

-- The reservation commits first, so the cancellation comes with a version that is out of date.
abbrev one_left : System
one_left = record { world = commit reservation world; pending = cancellation ∷ [] }

abbrev none_left : System
none_left = record { world = commit cancellation (commit reservation world); pending = [] }

abbrev reading :
    (Lets : World → Pending → Type 0)
    → Run fixed_point Lets (record { world = world; pending = [] }) both_read
reading Lets =
    then _ (record { world = world; pending = cancellation ∷ [] }) _
      (then _ _ _ (stop _) (
        read world [] cancellation
          (reads_active 2000 1 10 "BK-SURE" "ill" sure_booking 3 booking_read)))
      (read world (cancellation ∷ []) reservation
        (reads_slot draw 1 10 four detail (omega arith) slot_read refl))

abbrev reserved_first : Run fixed_point IsReserved (record { world = world; pending = [] }) one_left
reserved_first =
    then _ both_read one_left (reading IsReserved)
      (commits world [] (cancellation ∷ []) reservation tt)

abbrev both_done : Run fixed_point IsHeld (record { world = world; pending = [] }) none_left
both_done =
    then _ one_left none_left
      (then _ both_read one_left (reading IsHeld)
        (commits world [] (cancellation ∷ []) reservation tt))
      (commits (commit reservation world) [] [] cancellation tt)

-- The nine seats are those of the three bookings: nothing was given back.
nine_taken : map (λ (s : AvailabilitySlot). s.reserved_seats) none_left.world.db.slots ≡ 9 ∷ []
unfolding commit_reservation reserve_seats create_booking commit_cancel write_cancelled
    adjust_slot_reserved update_slots append_status_history
nine_taken = refl

Run-Accounts_example : InAccounts no_base none_left.world
Run-Accounts_example = Run-Accounts no_base fixed_point world none_left world-InAccounts both_done

Run-Refines_example : Refines one_left.world none_left.world
Run-Refines_example =
    Run-Refines no_base fixed_point world one_left none_left world-InAccounts reserved_first
      (commits (commit reservation world) [] [] cancellation tt)
