-- ===== src/Booking/Tenants.antt =====
-- The tenants of src/services/booking.service.ts: what a call for one leaves of the others' rows.
use booking_availability_pla.Shared.{
  ℕ, ◌<◌, ◌≡◌, refl, sym, ap, ◌∙◌, String, true, false, not, some, List, arith, ◌==◌, ==_iff, keep,
  find_first, find_first_sound, find_first-key, update_where, Unique, Unique-find_first,
  All-map_weaken, some-injective, keep-update, keep-append_dropped, All-every,
}
use booking_availability_pla.Model.{Booking, AvailabilitySlot}
use booking_availability_pla.Pricing.Numbers.{Numeric}
use booking_availability_pla.Service.{World, Result, ok, err}
use booking_availability_pla.Booking.Slots.{can_reserve, can_release, take_seats, free_seats}
use booking_availability_pla.Booking.Views.{by_id, is_owned}
use booking_availability_pla.Booking.Reserve.{Draw, CreateBookingBody, create_reservation}
use booking_availability_pla.Booking.Confirm.{set_confirmed, confirm_reservation}
use booking_availability_pla.Booking.Cancel.{set_cancelled, cancel_reservation}
use booking_availability_pla.Booking.Seats.{booking_key}
use booking_availability_pla.Booking.Atomic.{
  Ends, IsReservation, IsConfirmation, IsCancellation, create_reservation-Ends,
  confirm_reservation-Ends, cancel_reservation-Ends,
}

-- A call for a tenant and a user.
pub data BookingCall : Type 0 where
  reserve : Draw → CreateBookingBody → BookingCall
  confirm : (now : ℕ) (reference : String) → BookingCall
  cancel : (now : ℕ) (reference reason : String) → BookingCall

-- What it leaves, whether it returns or throws.
abbrev pub run_call : Numeric → ℕ → ℕ → BookingCall → World → World
run_call num tenant user (reserve draw body) w = (create_reservation num draw tenant user body w).1
run_call num tenant user (confirm now reference) w =
    (confirm_reservation now tenant user reference w).1
run_call num tenant user (cancel now reference reason) w =
    (cancel_reservation now tenant user reference reason w).1

-- A party has one guest at least, as the schema of a body wants it.
abbrev pub IsWanted : BookingCall → Type 0
IsWanted (reserve draw body) = 0 < body.party_size
IsWanted _ = Unit

abbrev pub foreign_slots : ℕ → World → List AvailabilitySlot
foreign_slots tenant w = keep (λ (s : AvailabilitySlot). not (s.tenant_id == tenant)) w.db.slots

abbrev pub foreign_bookings : ℕ → World → List Booking
foreign_bookings tenant w = keep (λ (b : Booking). not (b.tenant_id == tenant)) w.db.bookings

abbrev pub IsApart : ℕ → World → World → Type 0
IsApart tenant w w' =
    (foreign_slots tenant w' ≡ foreign_slots tenant w)
    × (foreign_bookings tenant w' ≡ foreign_bookings tenant w)

reserve_own :
    (id tenant n version : ℕ) (s : AvailabilitySlot)
    → can_reserve id tenant n version s ≡ true
    → not (s.tenant_id == tenant) ≡ false
reserve_own id tenant n version s h = ground arith

release_own :
    (id tenant n version : ℕ) (s : AvailabilitySlot)
    → can_release id tenant n version s ≡ true
    → not (s.tenant_id == tenant) ≡ false
release_own id tenant n version s h = ground arith

is_owned_own :
    (tenant user : ℕ) (reference : String) (b : Booking)
    → is_owned tenant user reference b ≡ true
    → not (b.tenant_id == tenant) ≡ false
is_owned_own tenant user reference b h = ground arith

own_dropped : (tenant : ℕ) → not (tenant == tenant) ≡ false
own_dropped tenant = rw ((==_iff tenant tenant).1 refl) refl

-- The row of an owned booking is the one row with its id.
bookings_apart :
    (tenant user : ℕ) (reference : String) (w : World) (b : Booking) (f : Booking → Booking)
    → Unique booking_key w.db.bookings
    → find_first (is_owned tenant user reference) w.db.bookings ≡ some b
    → ((x : Booking) → (f x).tenant_id ≡ x.tenant_id)
    → keep
        (λ (x : Booking). not (x.tenant_id == tenant))
        (update_where (by_id b.id) f w.db.bookings)
      ≡ foreign_bookings tenant w
bookings_apart tenant user reference w b f unique found same =
    let own = is_owned_own tenant user reference b (find_first_sound _ w.db.bookings b found) in
    let here = find_first-key booking_key _ w.db.bookings b unique found in
    keep-update _ (by_id b.id) f w.db.bookings (
      All-map_weaken _
        (λ x row hit.
          let eq : b ≡ x =
            some-injective b x (sym here ∙ rw (sym ((==_iff x.id b.id).0 hit)) row) in
          let dropped = ap (λ (z : Booking). not (z.tenant_id == tenant)) (sym eq) ∙ own in
          (dropped, ap (λ n. not (n == tenant)) (same x) ∙ dropped))
        w.db.bookings (Unique-find_first booking_key w.db.bookings unique))

Ends-IsApart :
    {A : Type 0} (tenant : ℕ) (w : World) (P : A → World → Type 0) (out : Result A × World)
    → ((a : A) (v : World) → P a v → IsApart tenant w v)
    → Ends w P out
    → IsApart tenant w out.1
Ends-IsApart tenant w P (ok a, v) h e = h a v e
Ends-IsApart tenant w P (err x, v) h e = rw e (refl, refl)

-- A reservation of at least one seat, a confirmation or a cancellation leaves the slots and the bookings of
-- every other tenant as they were, in their order, whether it returns or throws. Bookings have unique
-- identifiers.
pub run_call-IsApart :
    (num : Numeric) (tenant user : ℕ) (call : BookingCall) (w : World)
    → Unique booking_key w.db.bookings
    → IsWanted call
    → IsApart tenant w (run_call num tenant user call w)
run_call-IsApart num tenant user (reserve draw body) w unique size =
    Ends-IsApart tenant w (IsReservation w num draw tenant user body) _
      (λ s v r.
        let (d, read, room, done) = r in
        rw done.1 (
          keep-update _ _ (take_seats body.party_size) w.db.slots (
              All-every _ w.db.slots
                (λ x h. (reserve_own _ tenant _ _ x h, reserve_own _ tenant _ _ x h))),
          keep-append_dropped _ w.db.bookings _ (own_dropped tenant),
        ))
      (create_reservation-Ends w num draw tenant user body size)
run_call-IsApart num tenant user (confirm now reference) w unique size =
    Ends-IsApart tenant w (IsConfirmation w now tenant user reference) _
      (λ s v r.
        let (b, found, status, timely, summary, after) = r in
        rw after
          (refl, bookings_apart tenant user reference w b set_confirmed unique found (λ x. refl)))
      (confirm_reservation-Ends w now tenant user reference unique)
run_call-IsApart num tenant user (cancel now reference reason) w unique size =
    Ends-IsApart tenant w (IsCancellation w now tenant user reference reason) _
      (λ s v r.
        let (b, version, found, active, freed, summary, after) = r in
        rw after (
          keep-update _ _ (free_seats b.party_size) w.db.slots (
              All-every _ w.db.slots
                (λ x h. (release_own _ tenant _ _ x h, release_own _ tenant _ _ x h))),
          bookings_apart tenant user reference w b set_cancelled unique found (λ x. refl),
        ))
      (cancel_reservation-Ends w now tenant user reference reason unique)
