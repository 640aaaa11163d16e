-- ===== src/Booking/Keeping.antt =====
-- What each transaction of src/services/booking.service.ts leaves of what other requests have read.
use booking_availability_pla.Shared.{
  ℕ, ◌<◌, ◌≡◌, refl, sym, ap, ◌∙◌, String, true, some, List, arith, find_first, find_first_sound,
  Unique, Option-cases, inl, inr, some-injective,
}
use booking_availability_pla.Model.{Booking, AvailabilitySlot}
use booking_availability_pla.Pricing.Preview.{PricingPreview}
use booking_availability_pla.Service.{World}
use booking_availability_pla.Booking.Slots.{can_reserve, can_release, take_seats, free_seats}
use booking_availability_pla.Booking.Views.{by_id}
use booking_availability_pla.Booking.Reserve.{
  Draw, CreateBookingBody, commit_reservation, new_booking,
}
use booking_availability_pla.Booking.Confirm.{set_confirmed, commit_confirm}
use booking_availability_pla.Booking.Cancel.{set_cancelled, commit_cancel}
use booking_availability_pla.Booking.Expire.{StaleBooking, set_expired, claims, expire_reservation}
use booking_availability_pla.Booking.Seats.{slot_key}
use booking_availability_pla.Booking.Outcomes.{
  clashes, commit_reservation-refused, commit_reservation-clash, commit_reservation-done,
  commit_confirm-missing, commit_confirm-done, commit_cancel-refused, commit_cancel-done,
}
use booking_availability_pla.Booking.Expiring.{
  its_slot, frees, expire_reservation-unclaimed, expire_reservation-slotless,
  expire_reservation-refused, expire_reservation-done,
}
use booking_availability_pla.Booking.Accounting.{claims-key}
use booking_availability_pla.Booking.Versions.{reserve_key, release_key}
use booking_availability_pla.Booking.Tracking.{
  HasSeats, IsTracked, HasSeats-update, HasSeats-append, IsTracked-taken, IsTracked-freed,
  IsTracked-kept,
}

-- What is known of a booking stays known.
pub record Keeps (w w' : World) : Type 0 where
  pub seats_kept :
      (id slot size : ℕ)
      → HasSeats id slot size w.db.bookings
      → HasSeats id slot size w'.db.bookings
  pub tracked :
      (id slot size version : ℕ)
      → IsTracked id slot size version w.db.slots w.db.bookings
      → IsTracked id slot size version w'.db.slots w'.db.bookings

Keeps-refl : (w : World) → Keeps w w
Keeps-refl w = record { seats_kept = λ id slot size h. h; tracked = λ id slot size version h. h }

by_id-eq : (id : ℕ) (x : Booking) → by_id id x ≡ true → x.id ≡ id
by_id-eq id x h = ground arith

-- A row found by two ids has the slot that is known of the second.
row_slot :
    (bookings : List Booking) (id id' slot size : ℕ) (x : Booking)
    → HasSeats id' slot size bookings
    → find_first (by_id id) bookings ≡ some x
    → x.id ≡ id'
    → x.slot_id ≡ slot
row_slot bookings id id' slot size x (y, found, here, many) row same =
    let own : id ≡ id' = sym (by_id-eq id x (find_first_sound (by_id id) bookings x row)) ∙ same in
    let eq : y ≡ x = some-injective y x (sym found ∙ rw (sym own) row) in
    ap (λ (z : Booking). z.slot_id) (sym eq) ∙ here

module _ (w : World) (unique : Unique slot_key w.db.slots) where
  pub commit_reservation-Keeps :
      (draw : Draw) (tenant user : ℕ) (body : CreateBookingBody) (slot : AvailabilitySlot)
      (preview : PricingPreview)
      → 0 < body.party_size
      → Keeps w (commit_reservation draw tenant user body slot preview w).1
  commit_reservation-Keeps draw tenant user body slot preview h =
      elim (Option-cases
        (find_first (can_reserve slot.id tenant body.party_size slot.version) w.db.slots)) [
          | inl e ↦
              rw (commit_reservation-refused draw tenant user body slot preview w h e)
                (Keeps-refl w)
          | inr (s, e) ↦
              elim (Option-cases
                (find_first (clashes draw.booking_id draw.reference) w.db.bookings)) [
                  | inr (b, c) ↦
                      rw (commit_reservation-clash draw tenant user body slot preview w s b h e c)
                        (Keeps-refl w)
                  | inl c ↦
                      rw (commit_reservation-done draw tenant user body slot preview w s h e c)
                        (record {
                          seats_kept = λ id at size k.
                              HasSeats-append id at size w.db.bookings
                                (new_booking draw tenant user body slot preview) k;
                          tracked = λ id at size version k.
                              IsTracked-taken slot.id
                                (can_reserve slot.id tenant body.party_size slot.version)
                                (take_seats body.party_size)
                                (reserve_key slot.id slot.version tenant body.party_size)
                                (λ x. refl) (λ x. refl) w.db.slots s unique e id at size version
                                w.db.bookings (new_booking draw tenant user body slot preview) k;
                        })
                ]
        ]

  pub commit_confirm-Keeps :
      (now tenant user : ℕ) (booking : Booking)
      → Keeps w (commit_confirm now tenant user booking w).1
  commit_confirm-Keeps now tenant user booking =
      elim (Option-cases (find_first (by_id booking.id) w.db.bookings)) [
        | inl e ↦ rw (commit_confirm-missing now tenant user booking w e) (Keeps-refl w)
        | inr (b, e) ↦
            rw
              (commit_confirm-done now tenant user booking w b e
                (by_id-eq booking.id b (find_first_sound _ w.db.bookings b e)))
              (record {
                seats_kept = λ id at size k.
                    HasSeats-update id at size (by_id booking.id) set_confirmed w.db.bookings
                      (λ x. refl) (λ x. refl) (λ x. refl) k;
                tracked = λ id at size version k.
                    IsTracked-kept id at size version w.db.slots w.db.bookings (by_id booking.id)
                      set_confirmed (λ x. refl) (λ x. refl) (λ x. refl) (λ x. refl) k;
              })
      ]

  pub commit_cancel-Keeps :
      (now tenant user : ℕ) (reason : String) (booking : Booking) (version : ℕ)
      → HasSeats booking.id booking.slot_id booking.party_size w.db.bookings
      → Keeps w (commit_cancel now tenant user reason booking version w).1
  commit_cancel-Keeps now tenant user reason booking version own =
      elim (Option-cases
        (find_first (can_release booking.slot_id tenant booking.party_size version) w.db.slots)) [
          | inl r ↦
              rw (commit_cancel-refused now tenant user reason booking version w r) (Keeps-refl w)
          | inr (s, r) ↦
              rw
                (commit_cancel-done now tenant user reason booking version w s own.0 r own.1
                  (by_id-eq booking.id own.0 (find_first_sound _ w.db.bookings own.0 own.1)))
                (record {
                  seats_kept = λ id at size k.
                      HasSeats-update id at size (by_id booking.id) set_cancelled w.db.bookings
                        (λ x. refl) (λ x. refl) (λ x. refl) k;
                  tracked = λ id at size seen k.
                      IsTracked-freed booking.slot_id
                        (can_release booking.slot_id tenant booking.party_size version)
                        (free_seats booking.party_size)
                        (release_key booking.slot_id version tenant booking.party_size) (λ x. refl)
                        (λ x. refl) w.db.slots s unique r id at size seen w.db.bookings
                        (by_id booking.id) set_cancelled (λ x. refl) (λ x. refl) (λ x. refl)
                        (λ x row t.
                          row_slot w.db.bookings id booking.id _ _ x own row
                            (by_id-eq booking.id x t))
                        k;
                })
        ]

  pub expire_reservation-Keeps :
      (now : ℕ) (b : StaleBooking)
      → HasSeats b.id b.slot_id b.party_size w.db.bookings
      → Keeps w (expire_reservation now b w).1
  expire_reservation-Keeps now b own =
      elim (Option-cases (find_first (claims now b.id) w.db.bookings)) [
        | inl e ↦ rw (expire_reservation-unclaimed now b w e) (Keeps-refl w)
        | inr (x, e) ↦ elim (Option-cases (find_first (its_slot now b w) w.db.slots)) [
          | inl r ↦ rw (expire_reservation-slotless now b w x e r) (Keeps-refl w)
          | inr (s, r) ↦ elim (Option-cases (find_first (frees now b w s.version) w.db.slots)) [
            | inl t ↦ rw (expire_reservation-refused now b w x e s r t) (Keeps-refl w)
            | inr (s', t) ↦ rw (expire_reservation-done now b w x e s s' r t) (record {
              seats_kept = λ id at size k.
                  HasSeats-update id at size (claims now b.id) set_expired w.db.bookings (λ y. refl)
                    (λ y. refl) (λ y. refl) k;
              tracked = λ id at size seen k.
                  IsTracked-freed b.slot_id (frees now b w s.version) (free_seats b.party_size)
                    (release_key b.slot_id s.version b.tenant_id b.party_size) (λ y. refl)
                    (λ y. refl) w.db.slots s' unique t id at size seen w.db.bookings
                    (claims now b.id) set_expired (λ y. refl) (λ y. refl) (λ y. refl)
                    (λ y row c.
                      row_slot w.db.bookings id b.id _ _ y own row (claims-key now b.id y c))
                    k;
            })
          ]
        ]
      ]
