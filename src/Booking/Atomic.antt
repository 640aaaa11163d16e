-- ===== src/Booking/Atomic.antt =====
-- Errors of src/services/booking.service.ts: a handler that throws has written nothing and has
-- enqueued nothing. And what a handler that returns has done.
use booking_availability_pla.Shared.{
  ℕ, ◌+◌, ◌<◌, ◌≤◌, ◌≡◌, refl, subst, String, true, false, some, arith, find_first, ltb,
  Option-cases, Bool-cases, inl, inr, Unique, find_first-key,
}
use booking_availability_pla.Errors.{Failure}
use booking_availability_pla.Model.{Booking, AvailabilitySlot, reserved}
use booking_availability_pla.Pricing.Numbers.{Numeric}
use booking_availability_pla.Pricing.Preview.{PricingPreview, calculate_pricing_preview}
use booking_availability_pla.Service.{World, Result, ok, err}
use booking_availability_pla.Booking.Slots.{can_reserve, can_release}
use booking_availability_pla.Booking.Views.{BookingSummary, to_booking_summary, is_owned}
use booking_availability_pla.Booking.Reserve.{
  Draw, CreateBookingBody, SlotDetail, new_booking, find_slot, commit_reservation,
  create_reservation,
}
use booking_availability_pla.Booking.Confirm.{
  check_confirm, commit_confirm, confirm_reservation, set_confirmed, is_overdue,
}
use booking_availability_pla.Booking.Cancel.{check_cancel, cancel_reservation, set_cancelled}
use booking_availability_pla.Booking.Seats.{booking_key, is_active}
use booking_availability_pla.Booking.Outcomes.{
  clashes, commit_reservation-clash, commit_reservation-done, commit_reservation-refused,
  reserved_world, confirmed_world, cancelled_world, commit_confirm-done, commit_cancel-done,
  commit_cancel-refused,
}
use booking_availability_pla.Booking.Checks.{
  follow_reader, find_slot_reads, check_confirm_reads, check_cancel_reads, check_confirm_sound,
  check_cancel_sound,
}

-- The state after an error is `w`; the state after a result is as `P` says.
abbrev pub Ends : {A : Type 0} → World → (A → World → Type 0) → Result A × World → Type 0
Ends w P (ok a, v) = P a v
Ends w P (err e, v) = v ≡ w

Ends-weaken :
    {A : Type 0} (w : World) (P Q : A → World → Type 0) (out : Result A × World)
    → ((a : A) (v : World) → P a v → Q a v)
    → Ends w P out
    → Ends w Q out
Ends-weaken w P Q (ok a, v) f h = f a v h
Ends-weaken w P Q (err e, v) f h = h

module _ (w : World) where
  abbrev pub Reserved :
      Draw
      → ℕ
      → ℕ
      → CreateBookingBody
      → AvailabilitySlot
      → PricingPreview
      → BookingSummary
      → World
      → Type 0
  Reserved draw tenant user body slot preview s v =
      (s ≡ to_booking_summary (new_booking draw tenant user body slot preview))
      × (v ≡ reserved_world draw tenant user body slot preview w)

  commit_reservation-Ends :
      (draw : Draw) (tenant user : ℕ) (body : CreateBookingBody) (slot : AvailabilitySlot)
      (preview : PricingPreview)
      → 0 < body.party_size
      → Ends w
          (Reserved draw tenant user body slot preview)
          (commit_reservation draw tenant user body slot preview w)
  commit_reservation-Ends draw tenant user body slot preview h =
      elim (Option-cases
        (find_first (can_reserve slot.id tenant body.party_size slot.version) w.db.slots)) [
          | inl e ↦ rw (commit_reservation-refused draw tenant user body slot preview w h e) refl
          | inr (s, e) ↦
              elim (Option-cases
                (find_first (clashes draw.booking_id draw.reference) w.db.bookings)) [
                  | inr (b, c) ↦
                      rw (commit_reservation-clash draw tenant user body slot preview w s b h e c)
                        refl
                  | inl c ↦
                      rw (commit_reservation-done draw tenant user body slot preview w s h e c)
                        (refl, refl)
                ]
        ]

  abbrev pub preview_of : Numeric → Draw → CreateBookingBody → SlotDetail → PricingPreview
  preview_of num draw body d =
      calculate_pricing_preview num draw.now d.experience.base_price body.party_size d.rules
        (some d.slot.starts_at)

  -- The result and the state of a reservation that went through.
  abbrev pub IsReservation :
      Numeric → Draw → ℕ → ℕ → CreateBookingBody → BookingSummary → World → Type 0
  IsReservation num draw tenant user body s v =
      (d : SlotDetail) × (find_slot tenant body.slot_id w ≡ (ok d, w))
      × (d.slot.reserved_seats + body.party_size ≤ d.slot.capacity)
      × Reserved draw tenant user body d.slot (preview_of num draw body d) s v

  pub create_reservation-Ends :
      (num : Numeric) (draw : Draw) (tenant user : ℕ) (body : CreateBookingBody)
      → 0 < body.party_size
      → Ends w
          (IsReservation num draw tenant user body)
          (create_reservation num draw tenant user body w)
  unfolding create_reservation
  create_reservation-Ends num draw tenant user body h =
      follow_reader (Ends w _) _ (find_slot tenant body.slot_id w) w
        (find_slot_reads w tenant body.slot_id) (λ e. refl)
        λ d e. elim (Bool-cases (ltb d.slot.capacity (d.slot.reserved_seats + body.party_size))) [
          | inl full ↦ rw full refl
          | inr room ↦ rw room (
              Ends-weaken w (Reserved draw tenant user body d.slot (preview_of num draw body d)) _
                (commit_reservation draw tenant user body d.slot (preview_of num draw body d) w)
                (λ s v r. (d, e, ground arith, r))
                (commit_reservation-Ends draw tenant user body d.slot _ h))
        ]

  -- A reservation of at least one seat that throws has written nothing and has enqueued nothing.
  pub create_reservation_atomic :
      (num : Numeric) (draw : Draw) (tenant user : ℕ) (body : CreateBookingBody) (e : Failure)
      (w' : World)
      → 0 < body.party_size
      → create_reservation num draw tenant user body w ≡ (err e, w')
      → w' ≡ w
  create_reservation_atomic num draw tenant user body e w' h is =
      subst (Ends w _) is (create_reservation-Ends num draw tenant user body h)

  -- A reservation of at least one seat that returns found the slot in the caller's tenant, under an active experience and
  -- with room for the party; it has written the booking, the seats, the history and the audit entry of
  -- that slot and nothing else, and has enqueued one webhook and one invalidation.
  pub create_reservation_sound :
      (num : Numeric) (draw : Draw) (tenant user : ℕ) (body : CreateBookingBody)
      (s : BookingSummary) (w' : World)
      → 0 < body.party_size
      → create_reservation num draw tenant user body w ≡ (ok s, w')
      → IsReservation num draw tenant user body s w'
  create_reservation_sound num draw tenant user body s w' h is =
      subst (Ends w _) is (create_reservation-Ends num draw tenant user body h)

  -- The result and the state of a confirmation that went through.
  abbrev pub IsConfirmation : ℕ → ℕ → ℕ → String → BookingSummary → World → Type 0
  IsConfirmation now tenant user reference s v =
      (b : Booking) × (find_first (is_owned tenant user reference) w.db.bookings ≡ some b)
      × (b.status ≡ reserved)
      × (is_overdue now b.reserved_until ≡ false)
      × (s ≡ to_booking_summary (set_confirmed b))
      × (v ≡ confirmed_world now tenant user b w)

  pub confirm_reservation-Ends :
      (now tenant user : ℕ) (reference : String)
      → Unique booking_key w.db.bookings
      → Ends w
          (IsConfirmation now tenant user reference)
          (confirm_reservation now tenant user reference w)
  unfolding confirm_reservation
  confirm_reservation-Ends now tenant user reference u =
      follow_reader (Ends w _) (commit_confirm now tenant user)
        (check_confirm now tenant user reference w) w
        (check_confirm_reads w now tenant user reference) (λ e. refl)
        λ b e.
          let (found, status, timely) = check_confirm_sound w now tenant user reference b e in
          rw
            (commit_confirm-done now tenant user b w b
              (find_first-key booking_key _ w.db.bookings b u found) refl)
            (b, found, status, timely, refl, refl)

  -- A confirmation that throws has written nothing and has enqueued nothing, where identifiers are
  -- unique.
  pub confirm_reservation_atomic :
      (now tenant user : ℕ) (reference : String) (e : Failure) (w' : World)
      → Unique booking_key w.db.bookings
      → confirm_reservation now tenant user reference w ≡ (err e, w')
      → w' ≡ w
  confirm_reservation_atomic now tenant user reference e w' u is =
      subst (Ends w _) is (confirm_reservation-Ends now tenant user reference u)

  -- A confirmation that returns was of the caller's own booking, reserved until then and not overdue;
  -- the booking is confirmed and holds for good, and no slot has changed. Identifiers are unique.
  pub confirm_reservation_sound :
      (now tenant user : ℕ) (reference : String) (s : BookingSummary) (w' : World)
      → Unique booking_key w.db.bookings
      → confirm_reservation now tenant user reference w ≡ (ok s, w')
      → IsConfirmation now tenant user reference s w'
  confirm_reservation_sound now tenant user reference s w' u is =
      subst (Ends w _) is (confirm_reservation-Ends now tenant user reference u)

  -- The result and the state of a cancellation that went through.
  abbrev pub IsCancellation : ℕ → ℕ → ℕ → String → String → BookingSummary → World → Type 0
  IsCancellation now tenant user reference reason s v =
      (b : Booking) × (version : ℕ) × (find_first (is_owned tenant user reference) w.db.bookings
        ≡ some b)
      × (is_active b.status ≡ true)
      × ((x : AvailabilitySlot) × (find_first (can_release b.slot_id tenant b.party_size version)
              w.db.slots
            ≡ some x))
      × (s ≡ to_booking_summary (set_cancelled b))
      × (v ≡ cancelled_world now tenant user reason b version w)

  pub cancel_reservation-Ends :
      (now tenant user : ℕ) (reference reason : String)
      → Unique booking_key w.db.bookings
      → Ends w
          (IsCancellation now tenant user reference reason)
          (cancel_reservation now tenant user reference reason w)
  unfolding cancel_reservation
  cancel_reservation-Ends now tenant user reference reason u =
      follow_reader (Ends w _) _ (check_cancel tenant user reference w) w
        (check_cancel_reads w tenant user reference) (λ e. refl)
        λ c e.
          let (found, active) = check_cancel_sound w tenant user reference c.0 c.1 e in
          let here = find_first-key booking_key _ w.db.bookings c.0 u found in
          elim (Option-cases
            (find_first (can_release c.0.slot_id tenant c.0.party_size c.1) w.db.slots)) [
              | inl r ↦ rw (commit_cancel-refused now tenant user reason c.0 c.1 w r) refl
              | inr (s, r) ↦
                  rw (commit_cancel-done now tenant user reason c.0 c.1 w s c.0 r here refl)
                    (c.0, c.1, found, active, (s, r), refl, refl)
            ]

  -- A cancellation that throws has written nothing and has enqueued nothing, where identifiers are
  -- unique.
  pub cancel_reservation_atomic :
      (now tenant user : ℕ) (reference reason : String) (e : Failure) (w' : World)
      → Unique booking_key w.db.bookings
      → cancel_reservation now tenant user reference reason w ≡ (err e, w')
      → w' ≡ w
  cancel_reservation_atomic now tenant user reference reason e w' u is =
      subst (Ends w _) is (cancel_reservation-Ends now tenant user reference reason u)

  -- A cancellation that returns was of the caller's own booking, reserved or confirmed until then; the
  -- booking is cancelled and its seats, which its slot still counted, are given back. Identifiers are unique.
  pub cancel_reservation_sound :
      (now tenant user : ℕ) (reference reason : String) (s : BookingSummary) (w' : World)
      → Unique booking_key w.db.bookings
      → cancel_reservation now tenant user reference reason w ≡ (ok s, w')
      → IsCancellation now tenant user reference reason s w'
  cancel_reservation_sound now tenant user reference reason s w' u is =
      subst (Ends w _) is (cancel_reservation-Ends now tenant user reference reason u)
