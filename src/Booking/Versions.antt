-- ===== src/Booking/Versions.antt =====
-- The optimistic lock of src/services/booking.service.ts: of the transactions that have read a slot at one
-- version, one can commit.
use booking_availability_pla.Shared.{
  ℕ, ◌<◌, ◌≡◌, sym, ap, subst, ◌∙◌, String, Bool, true, false, none, some, List, [], ◌∷◌, arith,
  find_first, update_where, find_first_sound, Unique, Absent, Absent-find_first, Bool-cases,
  Option-cases, inl, inr,
}
use booking_availability_pla.Errors.{app, conflict_error}
use booking_availability_pla.Model.{Booking, AvailabilitySlot}
use booking_availability_pla.Pricing.Preview.{PricingPreview}
use booking_availability_pla.Service.{World, Result, ok, err}
use booking_availability_pla.Booking.Slots.{can_reserve, can_release, take_seats, free_seats}
use booking_availability_pla.Booking.Views.{BookingSummary, by_id}
use booking_availability_pla.Booking.Reserve.{Draw, CreateBookingBody, commit_reservation}
use booking_availability_pla.Booking.Cancel.{commit_cancel}
use booking_availability_pla.Booking.Seats.{slot_key}
use booking_availability_pla.Booking.Outcomes.{
  clashes, commit_reservation-refused, commit_reservation-clash, commit_reservation-done,
  commit_cancel-refused, commit_cancel-missing, commit_cancel-done,
}

-- Two tests that ask for the row of one key, and a change after which the second test fails.
module _ {A : Type 0} (key : A → ℕ) (id : ℕ) (p q : A → Bool) (f : A → A)
    (p_key : (x : A) → p x ≡ true → key x ≡ id) (q_key : (x : A) → q x ≡ true → key x ≡ id)
    (spent : (x : A) → p x ≡ true → q (f x) ≡ false) where
  update-none_of_Absent :
      (xs : List A) → Absent key id xs → find_first q (update_where p f xs) ≡ none
  update-none_of_Absent [] a = ground arith
  update-none_of_Absent (x ∷ xs) a =
      let rest = update-none_of_Absent xs a.1 in
      elim (Bool-cases (p x)) [
        | inl t ↦ absurd (a.0 (p_key x t))
        | inr u ↦ elim (Bool-cases (q x)) [
          | inl t ↦ absurd (a.0 (q_key x t))
          | inr v ↦ rw (u, v) rest
        ]
      ]

  spent-none :
      (xs : List A) (s : A)
      → Unique key xs
      → find_first p xs ≡ some s
      → p s ≡ true
      → find_first q (update_where p f xs) ≡ none
  spent-none [] s u e h = cc
  spent-none (x ∷ xs) s u e h = elim (Bool-cases (p x)) [
    | inl t ↦
        rw (t, spent x t) (update-none_of_Absent xs (subst (λ k. Absent key k xs) (p_key x t) u.0))
    | inr n ↦ elim (Bool-cases (q x)) [
      | inl t ↦
          let differ = Absent-find_first key (key x) p xs s u.0 (rw n at e) in
          absurd (differ (p_key s h ∙ sym (q_key x t)))
      | inr v ↦ rw (n, v) (spent-none xs s u.1 (rw n at e) h)
    ]
  ]

by_id-eq : (id : ℕ) (b : Booking) → by_id id b ≡ true → b.id ≡ id
by_id-eq id b h = ground arith

module _ (id version : ℕ) where
  pub reserve_key :
      (tenant n : ℕ) (x : AvailabilitySlot)
      → can_reserve id tenant n version x ≡ true
      → slot_key x ≡ id
  reserve_key tenant n x h = ground arith

  pub release_key :
      (tenant n : ℕ) (x : AvailabilitySlot)
      → can_release id tenant n version x ≡ true
      → slot_key x ≡ id
  release_key tenant n x h = ground arith

  reserve_spent :
      (tenant n tenant' m : ℕ) (x : AvailabilitySlot)
      → can_reserve id tenant n version x ≡ true
      → can_reserve id tenant' m version (take_seats n x) ≡ false
  reserve_spent tenant n tenant' m x h = ground arith

  release_spent :
      (tenant n tenant' m : ℕ) (x : AvailabilitySlot)
      → can_release id tenant n version x ≡ true
      → can_release id tenant' m version (free_seats n x) ≡ false
  release_spent tenant n tenant' m x h = ground arith

module _ (draw : Draw) (tenant user : ℕ) (body : CreateBookingBody) (slot : AvailabilitySlot)
    (preview : PricingPreview) (w w' : World) (r : BookingSummary) (size : 0 < body.party_size)
    (returned : commit_reservation draw tenant user body slot preview w ≡ (ok r, w')) where
  reservation_took :
      (s : AvailabilitySlot) × (find_first
          (can_reserve slot.id tenant body.party_size slot.version)
          w.db.slots
        ≡ some s)
      × (w'.db.slots
          ≡ update_where
              (can_reserve slot.id tenant body.party_size slot.version)
              (take_seats body.party_size)
              w.db.slots)
  reservation_took =
      elim (Option-cases
        (find_first (can_reserve slot.id tenant body.party_size slot.version) w.db.slots)) [
          | inl e ↦ cc (
              rw (commit_reservation-refused draw tenant user body slot preview w size e) at
                returned)
          | inr (s, e) ↦
              elim (Option-cases
                (find_first (clashes draw.booking_id draw.reference) w.db.bookings)) [
                  | inr (b, c) ↦ cc (
                      rw
                        (commit_reservation-clash draw tenant user body slot preview w s b size e c)
                        at returned)
                  | inl c ↦ (
                    s,
                    e,
                    ap (λ (o : Result BookingSummary × World). o.1.db.slots)
                        (sym (
                          rw
                            (commit_reservation-done draw tenant user body slot preview w s size e
                              c)
                            at returned)),
                  )
                ]
        ]

  -- Two reservations that have read a slot at one version: when the first has committed, the second is
  -- refused and writes nothing, whoever asks and for however many. Slots have unique
  -- identifiers, and each party is of at least one.
  pub commit_reservation-once :
      (draw' : Draw) (tenant' user' : ℕ) (body' : CreateBookingBody) (preview' : PricingPreview)
      → Unique slot_key w.db.slots
      → 0 < body'.party_size
      → commit_reservation draw' tenant' user' body' slot preview' w'
        ≡ (err (app (conflict_error "Slot no longer available")), w')
  commit_reservation-once draw' tenant' user' body' preview' unique size' =
      let (s, e, slots) = reservation_took in
      commit_reservation-refused draw' tenant' user' body' slot preview' w' size' (
        rw slots (
          spent-none slot_key slot.id (can_reserve slot.id tenant body.party_size slot.version)
            (can_reserve slot.id tenant' body'.party_size slot.version) (take_seats body.party_size)
            (reserve_key slot.id slot.version tenant body.party_size)
            (reserve_key slot.id slot.version tenant' body'.party_size)
            (reserve_spent slot.id slot.version tenant body.party_size tenant' body'.party_size)
            w.db.slots s unique e (find_first_sound _ w.db.slots s e)))

module _ (now tenant user : ℕ) (reason : String) (booking : Booking) (version : ℕ) (w w' : World)
    (r : BookingSummary)
    (returned : commit_cancel now tenant user reason booking version w ≡ (ok r, w')) where
  cancellation_freed :
      (s : AvailabilitySlot) × (find_first
          (can_release booking.slot_id tenant booking.party_size version)
          w.db.slots
        ≡ some s)
      × (w'.db.slots
          ≡ update_where
              (can_release booking.slot_id tenant booking.party_size version)
              (free_seats booking.party_size)
              w.db.slots)
  cancellation_freed =
      elim (Option-cases
        (find_first (can_release booking.slot_id tenant booking.party_size version) w.db.slots)) [
          | inl e ↦
              cc (rw (commit_cancel-refused now tenant user reason booking version w e) at returned)
          | inr (s, e) ↦ elim (Option-cases (find_first (by_id booking.id) w.db.bookings)) [
            | inl c ↦ cc (
                rw (commit_cancel-missing now tenant user reason booking version w s e c) at
                  returned)
            | inr (b, c) ↦ (
              s,
              e,
              ap (λ (o : Result BookingSummary × World). o.1.db.slots)
                  (sym (
                    rw
                      (commit_cancel-done now tenant user reason booking version w s b e c
                        (by_id-eq booking.id b (find_first_sound _ w.db.bookings b c)))
                      at returned)),
            )
          ]
        ]

  -- Two cancellations that have read a slot at one version, of one booking or of two: when the first has
  -- committed, the second is refused and writes nothing, so a booking's seats are given back once. Slots
  -- have unique identifiers.
  pub commit_cancel-once :
      (now' tenant' user' : ℕ) (reason' : String) (booking' : Booking)
      → Unique slot_key w.db.slots
      → booking'.slot_id ≡ booking.slot_id
      → commit_cancel now' tenant' user' reason' booking' version w'
        ≡ (err (app (conflict_error "Failed to release slot reservation")), w')
  commit_cancel-once now' tenant' user' reason' booking' unique same =
      let (s, e, slots) = cancellation_freed in
      commit_cancel-refused now' tenant' user' reason' booking' version w' (
        rw (slots, same)
          (spent-none slot_key booking.slot_id
            (can_release booking.slot_id tenant booking.party_size version)
            (can_release booking.slot_id tenant' booking'.party_size version)
            (free_seats booking.party_size)
            (release_key booking.slot_id version tenant booking.party_size)
            (release_key booking.slot_id version tenant' booking'.party_size)
            (release_spent booking.slot_id version tenant booking.party_size tenant'
              booking'.party_size)
            w.db.slots s unique e (find_first_sound _ w.db.slots s e)))
