-- ===== src/Booking/Lost.antt =====
-- A confirmation of src/services/booking.service.ts that comes after its booking has given up its seats:
-- `booking.update` looks for the identifier alone, not for the status that was checked.
use booking_availability_pla.Shared.{
  ℕ, ◌+◌, ◌<◌, ◌≡◌, ap, List, true, false, some, arith, find_first, sum_by-update, ◌==◌,
  find_first_sound, All-find_first, update_where,
}
use booking_availability_pla.Model.{Booking, AvailabilitySlot}
use booking_availability_pla.Service.{World}
use booking_availability_pla.Booking.Views.{by_id}
use booking_availability_pla.Booking.Confirm.{commit_confirm, set_confirmed}
use booking_availability_pla.Booking.Seats.{booking_key, is_active, seats, held, Balanced}
use booking_availability_pla.Booking.Outcomes.{commit_confirm-done, confirmed_world}
use booking_availability_pla.Booking.Accounting.{InAccounts, KeepsAccounts}

slot_id-eq : (id : ℕ) (s : AvailabilitySlot) → (s.id == id) ≡ true → s.id ≡ id
slot_id-eq id s h = ground arith

-- One slot cannot count the seats of two lists of bookings that hold different numbers of them.
clash :
    (taken size : ℕ) (base : ℕ → ℕ) (k id : ℕ) (bs cs : List Booking)
    → k ≡ id
    → taken ≡ base k + held k bs
    → taken ≡ base k + held k cs
    → held id cs ≡ held id bs + size
    → 0 < size
    → ⊥
clash taken size base k id bs cs same e e' more h =
    omega (arith, ap (λ j. held j bs) same, ap (λ j. held j cs) same)

module _ (base : ℕ → ℕ) (w : World) (v : InAccounts base w) where
  confirmed-held :
      (id : ℕ) (b : Booking)
      → find_first (by_id id) w.db.bookings ≡ some b
      → is_active b.status ≡ false
      → held b.slot_id (update_where (by_id id) set_confirmed w.db.bookings)
        ≡ held b.slot_id w.db.bookings + b.party_size
  confirmed-held id b e gone =
      let moved =
        sum_by-update booking_key id (by_id id) (λ x h. ground arith) (seats b.slot_id)
          set_confirmed w.db.bookings b v.unique_bookings e in
      ground arith

  -- The transaction of a confirmation, run when its booking has been cancelled or has expired since it
  -- was checked, breaks seat accounts that were in order: the booking, of at least one, holds seats that
  -- its slot, which is in the table, does not count.
  pub commit_confirm-lost :
      (now tenant user : ℕ) (booking b : Booking) (s : AvailabilitySlot)
      → find_first (by_id booking.id) w.db.bookings ≡ some b
      → is_active b.status ≡ false
      → 0 < b.party_size
      → find_first (λ x. x.id == b.slot_id) w.db.slots ≡ some s
      → ¬ KeepsAccounts base (commit_confirm now tenant user booking w)
  commit_confirm-lost now tenant user booking b s e gone size here keeps =
      let test = find_first_sound (by_id booking.id) w.db.bookings b e in
      let same : b.id ≡ booking.id = ground arith in
      let after : InAccounts base (confirmed_world now tenant user booking w) =
        rw (commit_confirm-done now tenant user booking w b e same) at keeps in
      let before = All-find_first (Balanced base w.db.bookings) _ w.db.slots s v.balanced here in
      let later = All-find_first (Balanced base _) _ w.db.slots s after.balanced here in
      let more = confirmed-held booking.id b e gone in
      let slot : s.id ≡ b.slot_id = slot_id-eq b.slot_id s (find_first_sound _ w.db.slots s here) in
      clash s.reserved_seats b.party_size base s.id b.slot_id w.db.bookings _ slot before later more
        size
