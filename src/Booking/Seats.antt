-- ===== src/Booking/Seats.antt =====
-- The seat accounts that src/services/booking.service.ts keeps in `availability_slots.reserved`:
-- what holds of the slots and the bookings between transactions, and how one change of each moves it.
use booking_availability_pla.Shared.{
  ℕ, ◌+◌, ◌≤◌, ◌≡◌, refl, Bool, true, false, ◌&&◌, some, List, [], ◌∷◌, ◌++◌, arith, ◌==◌,
  if◌then◌else◌, All, find_first, update_where, sum_by, Unique, Absent, All-update-Unique,
  Unique-update, Unique-append_new, sum_by-update, sum_by-append, find_first_sound, All-map_weaken,
}
use booking_availability_pla.Model.{
  AvailabilitySlot, Booking, BookingStatus, reserved, confirmed, cancelled, expired,
}
use booking_availability_pla.Booking.Slots.{can_reserve, can_release, take_seats, free_seats}

-- A reserved or a confirmed booking holds its seats.
abbrev pub is_active : BookingStatus → Bool
is_active reserved = true
is_active confirmed = true
is_active cancelled = false
is_active expired = false

abbrev pub seats : ℕ → Booking → ℕ
seats slot_id b = if is_active b.status && b.slot_id == slot_id then b.party_size else 0

-- The seats that the bookings hold in a slot.
abbrev pub held : ℕ → List Booking → ℕ
held slot_id bookings = sum_by (seats slot_id) bookings

abbrev pub slot_key : AvailabilitySlot → ℕ
slot_key s = s.id

abbrev pub booking_key : Booking → ℕ
booking_key b = b.id

-- `base` counts the seats of each slot that are taken by no booking in the table.
abbrev pub Balanced : (ℕ → ℕ) → List Booking → AvailabilitySlot → Type 0
Balanced base bookings s = s.reserved_seats ≡ base s.id + held s.id bookings

pub record Accounts (base : ℕ → ℕ) (slots : List AvailabilitySlot) (bookings : List Booking)
    : Type 0 where
  pub unique_slots : Unique slot_key slots
  pub unique_bookings : Unique booking_key bookings
  pub bounded : All (λ s. s.reserved_seats ≤ s.capacity) slots
  pub balanced : All (Balanced base bookings) slots

module _ (base : ℕ → ℕ) where
  module _ (id tenant n version : ℕ) where
    can_reserve-id :
        (s : AvailabilitySlot) → can_reserve id tenant n version s ≡ true → slot_key s ≡ id
    can_reserve-id s h = ground arith

    can_reserve-room :
        (s : AvailabilitySlot)
        → can_reserve id tenant n version s ≡ true
        → s.reserved_seats + n ≤ s.capacity
    can_reserve-room s h = ground arith

    can_release-id :
        (s : AvailabilitySlot) → can_release id tenant n version s ≡ true → slot_key s ≡ id
    can_release-id s h = ground arith

    can_release-room :
        (s : AvailabilitySlot) → can_release id tenant n version s ≡ true → n ≤ s.reserved_seats
    can_release-room s h = ground arith

    held-append_new :
        (bookings : List Booking) (b : Booking) (slot : ℕ)
        → held slot (bookings ++ b ∷ []) ≡ held slot bookings + seats slot b
    held-append_new bookings b slot = omega (arith, sum_by-append (seats slot) bookings (b ∷ []))

    pub take_seats-Accounts :
        {slots : List AvailabilitySlot} {bookings : List Booking} (s : AvailabilitySlot)
        (b : Booking)
        → Accounts base slots bookings
        → find_first (can_reserve id tenant n version) slots ≡ some s
        → Absent booking_key b.id bookings
        → is_active b.status ≡ true
        → b.slot_id ≡ id
        → b.party_size ≡ n
        → Accounts base
            (update_where (can_reserve id tenant n version) (take_seats n) slots)
            (bookings ++ b ∷ [])
    take_seats-Accounts {slots} {bookings} s b v e fresh active slot size = record {
      unique_slots =
          Unique-update slot_key (can_reserve id tenant n version) (take_seats n) slots (λ x. refl)
            v.unique_slots;
      unique_bookings = Unique-append_new booking_key bookings b v.unique_bookings fresh;
      bounded =
          All-update-Unique slot_key id (can_reserve id tenant n version) can_reserve-id
            (take_seats n) slots s v.unique_slots e
            (λ _. can_reserve-room s (find_first_sound (can_reserve id tenant n version) slots s e))
            (λ x _ h. h) v.bounded;
      balanced =
          All-update-Unique slot_key id (can_reserve id tenant n version) can_reserve-id
            (take_seats n) slots s v.unique_slots e
            (λ h. ground (
              arith,
              held-append_new bookings b s.id,
              can_reserve-id s (find_first_sound (can_reserve id tenant n version) slots s e),
            ))
            (λ x differ h. ground (arith, held-append_new bookings b x.id)) v.balanced;
    }

    -- Seats are given back along with the booking that held them.
    pub free_seats-Accounts :
        {slots : List AvailabilitySlot} {bookings : List Booking} (i : ℕ) (p : Booking → Bool)
        (f : Booking → Booking) (s : AvailabilitySlot) (b : Booking)
        → Accounts base slots bookings
        → find_first (can_release id tenant n version) slots ≡ some s
        → ((x : Booking) → p x ≡ true → booking_key x ≡ i)
        → ((x : Booking) → booking_key (f x) ≡ booking_key x)
        → find_first p bookings ≡ some b
        → is_active b.status ≡ true
        → is_active (f b).status ≡ false
        → b.slot_id ≡ id
        → b.party_size ≡ n
        → Accounts base
            (update_where (can_release id tenant n version) (free_seats n) slots)
            (update_where p f bookings)
    free_seats-Accounts {slots} {bookings} i p f s b v e fixes same found active gone slot size =
        record {
          unique_slots =
              Unique-update slot_key (can_release id tenant n version) (free_seats n) slots
                (λ x. refl) v.unique_slots;
          unique_bookings = Unique-update booking_key p f bookings same v.unique_bookings;
          bounded =
              All-update-Unique slot_key id (can_release id tenant n version) can_release-id
                (free_seats n) slots s v.unique_slots e (λ h. omega arith) (λ x _ h. h) v.bounded;
          balanced =
              All-update-Unique slot_key id (can_release id tenant n version) can_release-id
                (free_seats n) slots s v.unique_slots e
                (λ h. ground (
                  arith,
                  moved s.id,
                  can_release-room s (find_first_sound (can_release id tenant n version) slots s e),
                  can_release-id s (find_first_sound (can_release id tenant n version) slots s e),
                ))
                (λ x differ h. ground (arith, moved x.id)) v.balanced;
        }
      where
        moved :
            (k : ℕ)
            → held k (update_where p f bookings) + seats k b ≡ held k bookings + seats k (f b)
        moved k = sum_by-update booking_key i p fixes (seats k) f bookings b v.unique_bookings found

  -- A change of a booking that neither takes nor gives up seats leaves the accounts alone.
  pub keep_seats-Accounts :
      {slots : List AvailabilitySlot} {bookings : List Booking} (i : ℕ) (p : Booking → Bool)
      (f : Booking → Booking) (b : Booking)
      → Accounts base slots bookings
      → ((x : Booking) → p x ≡ true → booking_key x ≡ i)
      → ((x : Booking) → booking_key (f x) ≡ booking_key x)
      → find_first p bookings ≡ some b
      → ((k : ℕ) → seats k (f b) ≡ seats k b)
      → Accounts base slots (update_where p f bookings)
  keep_seats-Accounts {slots} {bookings} i p f b v fixes same found unmoved = record {
    unique_slots = v.unique_slots;
    unique_bookings = Unique-update booking_key p f bookings same v.unique_bookings;
    bounded = v.bounded;
    balanced = All-map_weaken _ (λ s h. ground (arith, moved s.id, unmoved s.id)) slots v.balanced;
  }
    where
      moved :
          (k : ℕ) → held k (update_where p f bookings) + seats k b ≡ held k bookings + seats k (f b)
      moved k = sum_by-update booking_key i p fixes (seats k) f bookings b v.unique_bookings found
