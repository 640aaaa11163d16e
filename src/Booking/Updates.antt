-- ===== src/Booking/Updates.antt =====
-- What a confirmation and a cancellation of src/services/booking.service.ts have read and written when they
-- return: each row before and after the call, field by field.
use booking_availability_pla.Shared.{
  ℕ, ◌+◌, ◌-◌, ◌≤◌, ◌≡◌, refl, sym, ap, ◌∙◌, String, true, false, not, ◌&&◌, ◌⊎◌, inl, inr, Option,
  none, some, [], ◌∷◌, ◌++◌, arith, ◌==◌, keep, find_first, find_first_sound, find_first-key,
  find_first-update, update_where, Unique, same_text, keep-update, All-every,
}
use booking_availability_pla.Model.{
  Booking, BookingStatus, AvailabilitySlot, reserved, confirmed, cancelled, expired,
  confirmed_event, cancelled_event,
}
use booking_availability_pla.Service.{World, ok, booking_webhook, availability_invalidation}
use booking_availability_pla.Booking.Slots.{can_release, free_seats}
use booking_availability_pla.Booking.Views.{BookingSummary, to_booking_summary, by_id, is_owned}
use booking_availability_pla.Booking.Confirm.{confirm_reservation, set_confirmed, is_overdue}
use booking_availability_pla.Booking.Cancel.{cancel_reservation, set_cancelled}
use booking_availability_pla.Booking.Seats.{booking_key, slot_key, is_active}
use booking_availability_pla.Booking.Atomic.{confirm_reservation_sound, cancel_reservation_sound}

-- The caller's own booking of a reference, before the call, and the status that it has after it: the hold
-- is gone, the rest of the row and every other booking are as they were, and the summary shows the row.
pub record IsMoved (w : World) (tenant user : ℕ) (reference : String) (status : BookingStatus)
    (booking : Booking) (s : BookingSummary) (v : World) : Type 0 where
  pub owned :
      find_first
        (λ (x : Booking).
          x.tenant_id == tenant && x.user_id == user && same_text x.reference reference)
        w.db.bookings
      ≡ some booking
  pub moved :
      find_first (λ (x : Booking). x.id == booking.id) v.db.bookings
      ≡ some (record booking { status = status; reserved_until = none })
  pub others_kept :
      keep (λ (x : Booking). not (x.id == booking.id)) v.db.bookings
      ≡ keep (λ (x : Booking). not (x.id == booking.id)) w.db.bookings
  pub summarised : s ≡ record {
    booking_ref = booking.reference;
    status = status;
    party_size = booking.party_size;
    total_price = booking.total_price;
    reserved_until = none;
  }

-- The hold has no end, or one that is not over.
timely :
    (now : ℕ) (b : Booking)
    → is_overdue now b.reserved_until ≡ false
    → (b.reserved_until ≡ none) ⊎ ((t : ℕ) × (b.reserved_until ≡ some t) × (now ≤ t))
timely now b h = timely_until b.reserved_until refl h
  where
    timely_until :
        (o : Option ℕ)
        → b.reserved_until ≡ o
        → is_overdue now o ≡ false
        → (b.reserved_until ≡ none) ⊎ ((t : ℕ) × (b.reserved_until ≡ some t) × (now ≤ t))
    timely_until none e h = inl e
    timely_until (some t) e h = inr (t, e, ground arith)

active_cases : (s : BookingStatus) → is_active s ≡ true → (s ≡ reserved) ⊎ (s ≡ confirmed)
active_cases reserved h = inl refl
active_cases confirmed h = inr refl
active_cases cancelled h = cc
active_cases expired h = cc

id_dropped : (id : ℕ) (b : Booking) → by_id id b ≡ true → not (b.id == id) ≡ false
id_dropped id b h = ground arith

module _ (w : World) (tenant user : ℕ) (reference : String)
    (unique_bookings : Unique booking_key w.db.bookings) where
  others_after :
      (id : ℕ) (f : Booking → Booking)
      → ((x : Booking) → (f x).id ≡ x.id)
      → keep (λ (x : Booking). not (x.id == id)) (update_where (by_id id) f w.db.bookings)
        ≡ keep (λ (x : Booking). not (x.id == id)) w.db.bookings
  others_after id f same = keep-update _ _ f w.db.bookings (
      All-every _ w.db.bookings
        (λ x h. (id_dropped id x h, ap (λ n. not (n == id)) (same x) ∙ id_dropped id x h)))

  moved_after :
      (b : Booking) (f : Booking → Booking)
      → ((x : Booking) → (f x).id ≡ x.id)
      → find_first (is_owned tenant user reference) w.db.bookings ≡ some b
      → find_first (by_id b.id) (update_where (by_id b.id) f w.db.bookings) ≡ some (f b)
  moved_after b f same found =
      let here = find_first-key booking_key _ w.db.bookings b unique_bookings found in
      rw
        (find_first-update (by_id b.id) (by_id b.id) f w.db.bookings b
          (λ y. ap (λ n. n == b.id) (same y)) here)
        (rw (find_first_sound (by_id b.id) w.db.bookings b here) refl)

  -- A confirmation that returns was of the caller's own booking, reserved until then, with a hold that has no
  -- end or is not over; the booking is found confirmed and without an end to its hold, its other
  -- fields and every other booking are as they were, no slot has changed, one row is added to the history, and one webhook is
  -- enqueued. Bookings have unique identifiers.
  pub confirm_reservation_effect :
      (now : ℕ) (s : BookingSummary) (w' : World)
      → confirm_reservation now tenant user reference w ≡ (ok s, w')
      → (b : Booking) × (b.status ≡ reserved)
        × ((b.reserved_until ≡ none) ⊎ ((t : ℕ) × (b.reserved_until ≡ some t) × (now ≤ t)))
        × IsMoved w tenant user reference confirmed b s w'
        × (w'.db.slots ≡ w.db.slots)
        × (w'.db.history
            ≡ w.db.history
              ++ record {
                booking_id = b.id;
                from_status = some b.status;
                to_status = confirmed;
                actor_user_id = some user;
                reason = none;
                created_at = now;
              }
                ∷ [])
        × (w'.queued ≡ w.queued ++ booking_webhook tenant confirmed_event b.id ∷ [])
  unfolding to_booking_summary
  confirm_reservation_effect now s w' is =
      let (b, found, status, held, summary, after) =
        confirm_reservation_sound w now tenant user reference s w' unique_bookings is in
      (
        b,
        status,
        timely now b held,
        record {
          owned = found;
          moved = rw after (moved_after b set_confirmed (λ x. refl) found);
          others_kept = rw after (others_after b.id set_confirmed (λ x. refl));
          summarised = summary;
        },
        ap (λ (u : World). u.db.slots) after,
        ap (λ (u : World). u.db.history) after,
        ap (λ (u : World). u.queued) after,
      )

  released :
      (id n version : ℕ) (x : AvailabilitySlot)
      → can_release id tenant n version x ≡ true
      → (x.id ≡ id) × (x.tenant_id ≡ tenant) × (n ≤ x.reserved_seats) × (not (x.id == id) ≡ false)
  released id n version x h = ground arith

  -- A cancellation that returns was of the caller's own booking, reserved or confirmed until then; the
  -- booking is found cancelled, its other fields and every other booking are as they were; its slot,
  -- which is the tenant's and counted the party, is found without the party's seats and with its
  -- version raised once; every other slot is as it was, one row is added to the history, and one webhook and one invalidation are
  -- enqueued. Bookings and slots have unique identifiers.
  pub cancel_reservation_effect :
      (now : ℕ) (reason : String) (s : BookingSummary) (w' : World)
      → Unique slot_key w.db.slots
      → cancel_reservation now tenant user reference reason w ≡ (ok s, w')
      → (b : Booking) × (slot : AvailabilitySlot) × ((b.status ≡ reserved) ⊎ (b.status ≡ confirmed))
        × IsMoved w tenant user reference cancelled b s w'
        × (find_first (λ (x : AvailabilitySlot). x.id == b.slot_id) w.db.slots ≡ some slot)
        × (slot.tenant_id ≡ tenant)
        × (b.party_size ≤ slot.reserved_seats)
        × (find_first (λ (x : AvailabilitySlot). x.id == b.slot_id) w'.db.slots
            ≡ some (record slot {
              reserved_seats = slot.reserved_seats - b.party_size;
              version = slot.version + 1;
            }))
        × (keep (λ (x : AvailabilitySlot). not (x.id == b.slot_id)) w'.db.slots
            ≡ keep (λ (x : AvailabilitySlot). not (x.id == b.slot_id)) w.db.slots)
        × (w'.db.history
            ≡ w.db.history
              ++ record {
                booking_id = b.id;
                from_status = some b.status;
                to_status = cancelled;
                actor_user_id = some user;
                reason = some reason;
                created_at = now;
              }
                ∷ [])
        × (w'.queued
            ≡ (w.queued ++ booking_webhook tenant cancelled_event b.id ∷ [])
              ++ availability_invalidation tenant ∷ [])
  unfolding to_booking_summary
  cancel_reservation_effect now reason s w' unique_slots is =
      let (b, version, found, active, (slot, freed), summary, after) =
        cancel_reservation_sound w now tenant user reference reason s w' unique_bookings is in
      let test = find_first_sound _ w.db.slots slot freed in
      let (same, own, counted, dropped) = released b.slot_id b.party_size version slot test in
      let here : find_first (λ (x : AvailabilitySlot). x.id == b.slot_id) w.db.slots ≡ some slot =
        rw (sym same) (find_first-key slot_key _ w.db.slots slot unique_slots freed) in
      (
        b,
        slot,
        active_cases b.status active,
        record {
          owned = found;
          moved = rw after (moved_after b set_cancelled (λ x. refl) found);
          others_kept = rw after (others_after b.id set_cancelled (λ x. refl));
          summarised = summary;
        },
        here,
        own,
        counted,
        rw after (
            rw
              (find_first-update (λ (x : AvailabilitySlot). x.id == b.slot_id) _
                (free_seats b.party_size) w.db.slots slot (λ y. refl) here)
              (rw test refl)),
        rw after (
            keep-update _ _ (free_seats b.party_size) w.db.slots (
              All-every _ w.db.slots (λ x h.
                let (e, t, m, gone) = released b.slot_id b.party_size version x h in
                (gone, gone)))),
        ap (λ (u : World). u.db.history) after,
        ap (λ (u : World). u.queued) after,
      )
