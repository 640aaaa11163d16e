-- ===== src/Booking/Progress.antt =====
-- When the expiry of one stale booking succeeds, in src/services/booking.service.ts.
use booking_availability_pla.Shared.{
  ℕ, ◌+◌, ◌≤◌, ◌≡◌, refl, sym, ap, subst, ◌∙◌, Bool, true, ◌&&◌, some, List, [], ◌∷◌, arith, ◌==◌,
  if◌then◌else◌, find_first, find_first_sound, find_first-stronger, find_first-update, update_where,
  sum_by, All, All-find_first, All-update, some-injective, Bool-cases, inl, inr,
}
use booking_availability_pla.Model.{Booking, AvailabilitySlot}
use booking_availability_pla.Service.{World, Result, ok}
use booking_availability_pla.Booking.Slots.{free_seats}
use booking_availability_pla.Booking.Expire.{StaleBooking, set_expired, claims, expire_reservation}
use booking_availability_pla.Booking.Seats.{Balanced, seats, held}
use booking_availability_pla.Booking.Expiring.{
  its_slot, frees, expired_world, expire_reservation-done,
}
use booking_availability_pla.Booking.Accounting.{
  InAccounts, KeepsAccounts, expire_reservation-Accounts,
}

-- The slot of a booking is in the table, under the booking's tenant.
abbrev pub has_slot : Booking → AvailabilitySlot → Bool
has_slot b s = s.id == b.slot_id && s.tenant_id == b.tenant_id

abbrev pub IsSlotted : List AvailabilitySlot → Booking → Type 0
IsSlotted slots b = (s : AvailabilitySlot) × (find_first (has_slot b) slots ≡ some s)

-- The states that the expiry works on: seat accounts in order, and a slot for every booking.
pub record IsSound (base : ℕ → ℕ) (w : World) : Type 0 where
  pub accounts : InAccounts base w
  pub slotted : All (IsSlotted w.db.slots) w.db.bookings

-- A booking that was read is still stale, as it was read.
abbrev pub IsClaimed : ℕ → World → StaleBooking → Type 0
IsClaimed now w b =
    (x : Booking) × (find_first (claims now b.id) w.db.bookings ≡ some x)
    × (x.slot_id ≡ b.slot_id)
    × (x.tenant_id ≡ b.tenant_id)
    × (x.party_size ≡ b.party_size)

sum_by-find_first :
    (weight : Booking → ℕ) (p : Booking → Bool) (xs : List Booking) (x : Booking)
    → find_first p xs ≡ some x
    → weight x ≤ sum_by weight xs
sum_by-find_first weight p [] x e = cc
sum_by-find_first weight p (y ∷ ys) x e = elim (Bool-cases (p y)) [
  | inl t ↦ let same : weight y ≡ weight x = ap weight (ground arith) in omega arith
  | inr f ↦ let rest = sum_by-find_first weight p ys x (rw f at e) in omega arith
]

claims-seats :
    (now id : ℕ) (x : Booking) → claims now id x ≡ true → seats x.slot_id x ≡ x.party_size
claims-seats now id x h = ground arith

room_to_free : (n taken taken' rest : ℕ) → n ≤ taken' → taken ≡ rest + taken' → n ≤ taken
room_to_free n taken taken' rest h e = omega arith

module _ (base : ℕ → ℕ) (now : ℕ) (b : StaleBooking) (w : World) (v : IsSound base w)
    (c : IsClaimed now w b) where
  expire_slot : (s : AvailabilitySlot) × (find_first (its_slot now b w) w.db.slots ≡ some s)
  expire_slot =
      let (x, found, slot, tenant, size) = c in
      let (s, here) = All-find_first (IsSlotted w.db.slots) _ w.db.bookings x v.slotted found in
      (s, rw (sym slot, sym tenant) here)

  slot_room :
      (s : AvailabilitySlot)
      → find_first (its_slot now b w) w.db.slots ≡ some s
      → b.party_size ≤ s.reserved_seats
  slot_room s here =
      let (x, found, slot, tenant, size) = c in
      let test = find_first_sound (its_slot now b w) w.db.slots s here in
      let same : s.id ≡ b.slot_id = ground arith in
      let count =
        All-find_first (Balanced base w.db.bookings) _ w.db.slots s v.accounts.balanced here in
      let held_here = sum_by-find_first (seats x.slot_id) (claims now b.id) w.db.bookings x found in
      let size_here = claims-seats now b.id x (find_first_sound _ w.db.bookings x found) in
      room_to_free b.party_size s.reserved_seats (held s.id w.db.bookings) (base s.id)
        (rw (same ∙ sym slot) (omega arith)) count

  slot_frees :
      (s : AvailabilitySlot)
      → find_first (its_slot now b w) w.db.slots ≡ some s
      → find_first (frees now b w s.version) w.db.slots ≡ some s
  slot_frees s here =
      let test = find_first_sound (its_slot now b w) w.db.slots s here in
      let room = slot_room s here in
      find_first-stronger (frees now b w s.version) (its_slot now b w) w.db.slots s
        (λ y h. ground arith) (ground arith) here

  still-IsSlotted :
      (version : ℕ) (y : Booking)
      → IsSlotted w.db.slots y
      → IsSlotted (update_where (frees now b w version) (free_seats b.party_size) w.db.slots) y
  still-IsSlotted version y h = (
    if frees now b w version h.0 then free_seats b.party_size h.0 else h.0,
    find_first-update (has_slot y) (frees now b w version) (free_seats b.party_size) w.db.slots h.0
        (λ s. refl) h.1,
  )

  -- The expiry of a booking that is still stale succeeds, and marks it.
  pub expire_reservation-marks :
      (w' : World) × (expire_reservation now b w ≡ (ok true, w'))
      × (w'.db.bookings ≡ update_where (claims now b.id) set_expired w.db.bookings)
      × IsSound base w'
  expire_reservation-marks =
      let (x, found, slot, tenant, size) = c in
      let (s, here) = expire_slot in
      let done = expire_reservation-done now b w x found s s here (slot_frees s here) in
      let accounts : KeepsAccounts base (expire_reservation now b w) =
        expire_reservation-Accounts base w v.accounts now b (λ y e.
          subst (λ (z : Booking). (z.slot_id ≡ b.slot_id) × (z.party_size ≡ b.party_size))
            (some-injective x y (sym found ∙ e)) (slot, size)) in
      (
        expired_world now b w s.version,
        done,
        refl,
        record {
          accounts = subst (λ (out : Result Bool × World). InAccounts base out.1) done accounts;
          slotted =
              All-update (claims now b.id) set_expired w.db.bookings
                (λ y h. (still-IsSlotted s.version y h, still-IsSlotted s.version y h)) v.slotted;
        },
      )
