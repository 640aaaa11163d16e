-- ===== src/Booking/Accounting.antt =====
-- The seat accounts under the operations of src/services/booking.service.ts.
use booking_availability_pla.Shared.{
  ℕ, ◌<◌, ◌≡◌, refl, String, true, some, arith, find_first, Option-cases, inl, inr,
  find_first_sound, Absent-of_none,
}
use booking_availability_pla.Model.{Booking, AvailabilitySlot}
use booking_availability_pla.Pricing.Preview.{PricingPreview}
use booking_availability_pla.Service.{World, Result}
use booking_availability_pla.Booking.Slots.{can_reserve, can_release}
use booking_availability_pla.Booking.Views.{by_id}
use booking_availability_pla.Booking.Reserve.{
  Draw, CreateBookingBody, commit_reservation, new_booking,
}
use booking_availability_pla.Booking.Confirm.{set_confirmed, commit_confirm}
use booking_availability_pla.Booking.Cancel.{set_cancelled, commit_cancel}
use booking_availability_pla.Booking.Expire.{StaleBooking, set_expired, claims, expire_reservation}
use booking_availability_pla.Booking.Seats.{
  Accounts, is_active, seats, booking_key, take_seats-Accounts, free_seats-Accounts,
  keep_seats-Accounts,
}
use booking_availability_pla.Booking.Outcomes.{
  clashes, commit_reservation-refused, commit_reservation-clash, commit_reservation-done,
  commit_confirm-done, commit_cancel-refused, commit_cancel-done,
}
use booking_availability_pla.Booking.Expiring.{
  its_slot, frees, expire_reservation-unclaimed, expire_reservation-slotless,
  expire_reservation-refused, expire_reservation-done,
}

-- The seat accounts of a state, and of the state that a call leaves.
abbrev pub InAccounts : (ℕ → ℕ) → World → Type 0
InAccounts base w = Accounts base w.db.slots w.db.bookings

abbrev pub KeepsAccounts : {A : Type 0} → (ℕ → ℕ) → Result A × World → Type 0
KeepsAccounts base out = InAccounts base out.1

by_id-key : (id : ℕ) (x : Booking) → by_id id x ≡ true → booking_key x ≡ id
by_id-key id x h = ground arith

clashes-key :
    (id : ℕ) (reference : String) (x : Booking) → booking_key x ≡ id → clashes id reference x ≡ true
clashes-key id reference x h = ground arith

pub claims-key : (now id : ℕ) (x : Booking) → claims now id x ≡ true → booking_key x ≡ id
claims-key now id x h = ground arith

claims-active : (now id : ℕ) (x : Booking) → claims now id x ≡ true → is_active x.status ≡ true
claims-active now id x h = ground arith

set_confirmed-seats :
    (b : Booking) → is_active b.status ≡ true → (k : ℕ) → seats k (set_confirmed b) ≡ seats k b
set_confirmed-seats b h k = ground arith

module _ (base : ℕ → ℕ) (w : World) (v : InAccounts base w) where
  pub commit_reservation-Accounts :
      (draw : Draw) (tenant user : ℕ) (body : CreateBookingBody) (slot : AvailabilitySlot)
      (preview : PricingPreview)
      → 0 < body.party_size
      → KeepsAccounts base (commit_reservation draw tenant user body slot preview w)
  commit_reservation-Accounts draw tenant user body slot preview h =
      elim (Option-cases
        (find_first (can_reserve slot.id tenant body.party_size slot.version) w.db.slots)) [
          | inl e ↦ rw (commit_reservation-refused draw tenant user body slot preview w h e) v
          | inr (s, e) ↦
              elim (Option-cases
                (find_first (clashes draw.booking_id draw.reference) w.db.bookings)) [
                  | inr (b, c) ↦
                      rw (commit_reservation-clash draw tenant user body slot preview w s b h e c) v
                  | inl c ↦
                      rw (commit_reservation-done draw tenant user body slot preview w s h e c) (
                        take_seats-Accounts base slot.id tenant body.party_size slot.version s
                          (new_booking draw tenant user body slot preview) v e
                          (Absent-of_none booking_key draw.booking_id _ w.db.bookings
                            (clashes-key draw.booking_id draw.reference) c)
                          refl refl refl)
                ]
        ]

  -- Of a booking that holds its seats when the transaction runs.
  pub commit_confirm-Accounts :
      (now tenant user : ℕ) (booking b : Booking)
      → find_first (by_id booking.id) w.db.bookings ≡ some b
      → is_active b.status ≡ true
      → KeepsAccounts base (commit_confirm now tenant user booking w)
  commit_confirm-Accounts now tenant user booking b e active =
      rw
        (commit_confirm-done now tenant user booking w b e
          (by_id-key booking.id b (find_first_sound _ w.db.bookings b e)))
        (keep_seats-Accounts base booking.id (by_id booking.id) set_confirmed b v
          (by_id-key booking.id) (λ x. refl) e (set_confirmed-seats b active))

  -- Of a booking that holds the same seats as when it was read.
  pub commit_cancel-Accounts :
      (now tenant user : ℕ) (reason : String) (booking : Booking) (version : ℕ) (b : Booking)
      → find_first (by_id booking.id) w.db.bookings ≡ some b
      → is_active b.status ≡ true
      → b.slot_id ≡ booking.slot_id
      → b.party_size ≡ booking.party_size
      → KeepsAccounts base (commit_cancel now tenant user reason booking version w)
  commit_cancel-Accounts now tenant user reason booking version b e active slot size =
      elim (Option-cases
        (find_first (can_release booking.slot_id tenant booking.party_size version) w.db.slots)) [
          | inl r ↦ rw (commit_cancel-refused now tenant user reason booking version w r) v
          | inr (s, r) ↦
              rw
                (commit_cancel-done now tenant user reason booking version w s b r e
                  (by_id-key booking.id b (find_first_sound _ w.db.bookings b e)))
                (free_seats-Accounts base booking.slot_id tenant booking.party_size version
                  booking.id (by_id booking.id) set_cancelled s b v r (by_id-key booking.id)
                  (λ x. refl) e active refl slot size)
        ]

  pub expire_reservation-Accounts :
      (now : ℕ) (b : StaleBooking)
      → ((x : Booking)
          → find_first (claims now b.id) w.db.bookings ≡ some x
          → (x.slot_id ≡ b.slot_id) × (x.party_size ≡ b.party_size))
      → KeepsAccounts base (expire_reservation now b w)
  expire_reservation-Accounts now b faithful =
      elim (Option-cases (find_first (claims now b.id) w.db.bookings)) [
        | inl e ↦ rw (expire_reservation-unclaimed now b w e) v
        | inr (x, e) ↦ elim (Option-cases (find_first (its_slot now b w) w.db.slots)) [
          | inl r ↦ rw (expire_reservation-slotless now b w x e r) v
          | inr (s, r) ↦ elim (Option-cases (find_first (frees now b w s.version) w.db.slots)) [
            | inl t ↦ rw (expire_reservation-refused now b w x e s r t) v
            | inr (s', t) ↦ rw (expire_reservation-done now b w x e s s' r t) (
                free_seats-Accounts base b.slot_id b.tenant_id b.party_size s.version b.id
                  (claims now b.id) set_expired s' x v t (claims-key now b.id) (λ y. refl) e
                  (claims-active now b.id x (find_first_sound _ w.db.bookings x e)) refl
                  (faithful x e).0 (faithful x e).1)
          ]
        ]
      ]
