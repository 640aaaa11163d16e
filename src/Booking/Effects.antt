-- ===== src/Booking/Effects.antt =====
-- What a reservation, a confirmation and a cancellation of src/services/booking.service.ts have read and
-- written when they return: each row before and after the call, field by field.
use booking_availability_pla.Shared.{
  ℕ, ◌+◌, ◌*◌, ◌<◌, ◌≤◌, ◌≡◌, refl, sym, ap, ◌∙◌, true, false, not, ◌&&◌, none, some, [], ◌∷◌, ◌++◌,
  arith, ◌==◌, keep, find_first, find_first_sound, find_first-update, update_where, keep-update,
  All-every,
}
use booking_availability_pla.Model.{AvailabilitySlot, Experience, reserved, reserved_event}
use booking_availability_pla.Pricing.Numbers.{Numeric}
use booking_availability_pla.Pricing.Preview.{PricingPreview, calculate_pricing_preview}
use booking_availability_pla.Service.{World, ok, booking_webhook, availability_invalidation}
use booking_availability_pla.Booking.Slots.{can_reserve, take_seats}
use booking_availability_pla.Booking.Views.{BookingSummary, to_booking_summary}
use booking_availability_pla.Booking.Reserve.{
  Draw, CreateBookingBody, SlotDetail, active_rules, find_slot, create_reservation,
}
use booking_availability_pla.Booking.Accepts.{named, can_reserve_self, create_reservation-found}
use booking_availability_pla.Booking.Outcomes.{clashes}
use booking_availability_pla.Booking.Atomic.{IsReservation, create_reservation_sound}

-- A reservation that went through: the slot is of the caller's tenant, under an active experience, with
-- room for the party; one booking is added, reserved until the hold ends, at the price of the preview; the
-- slot counts the party, once, and every other slot is as it was.
pub record IsReserved (w : World) (num : Numeric) (draw : Draw) (tenant user : ℕ)
    (body : CreateBookingBody) (s : BookingSummary) (v : World) : Type 0 where
  pub slot : AvailabilitySlot
  pub experience : Experience
  pub price : PricingPreview
  pub slot_found :
      find_first
        (λ (x : AvailabilitySlot). x.id == body.slot_id && x.tenant_id == tenant)
        w.db.slots
      ≡ some slot
  pub experience_found :
      find_first (λ (x : Experience). x.id == slot.experience_id) w.db.experiences ≡ some experience
  pub is_active : experience.active ≡ true
  pub has_room : slot.reserved_seats + body.party_size ≤ slot.capacity
  pub priced :
      price
      ≡ calculate_pricing_preview num draw.now experience.base_price body.party_size
          (active_rules experience.supplier_id w.db)
          (some slot.starts_at)
  pub booked :
      v.db.bookings
      ≡ w.db.bookings
        ++ record {
          id = draw.booking_id;
          reference = draw.reference;
          tenant_id = tenant;
          user_id = user;
          experience_id = slot.experience_id;
          slot_id = body.slot_id;
          party_size = body.party_size;
          total_price = price.total_price;
          status = reserved;
          reserved_until = some (draw.now + draw.ttl_seconds * 1000);
          created_at = draw.now;
        }
          ∷ []
  pub seats_taken :
      find_first
        (λ (x : AvailabilitySlot). x.id == body.slot_id && x.tenant_id == tenant)
        v.db.slots
      ≡ some (record slot {
        reserved_seats = slot.reserved_seats + body.party_size;
        version = slot.version + 1;
      })
  pub others_kept :
      keep (λ (x : AvailabilitySlot). not (x.id == body.slot_id)) v.db.slots
      ≡ keep (λ (x : AvailabilitySlot). not (x.id == body.slot_id)) w.db.slots
  pub recorded :
      v.db.history
      ≡ w.db.history
        ++ record {
          booking_id = draw.booking_id;
          from_status = none;
          to_status = reserved;
          actor_user_id = some user;
          reason = none;
          created_at = draw.now;
        }
          ∷ []
  pub enqueued :
      v.queued
      ≡ (w.queued ++ booking_webhook tenant reserved_event draw.booking_id ∷ [])
        ++ availability_invalidation tenant ∷ []
  pub summarised : s ≡ record {
    booking_ref = draw.reference;
    status = reserved;
    party_size = body.party_size;
    total_price = price.total_price;
    reserved_until = some (draw.now + draw.ttl_seconds * 1000);
  }

module _ (w : World) (tenant : ℕ) where
  -- What a slot that was found is.
  find_slot-found :
      (id : ℕ) (d : SlotDetail)
      → find_slot tenant id w ≡ (ok d, w)
      → (find_first (named id tenant) w.db.slots ≡ some d.slot)
        × (find_first (λ (x : Experience). x.id == d.slot.experience_id) w.db.experiences
            ≡ some d.experience)
        × (d.experience.active ≡ true)
        × (d.rules ≡ active_rules d.experience.supplier_id w.db)
  unfolding find_slot
  find_slot-found id d e = ground arith

  named-id : (id : ℕ) (s : AvailabilitySlot) → named id tenant s ≡ true → s.id ≡ id
  named-id id s h = ground arith

  reserve-id :
      (id n version : ℕ) (s : AvailabilitySlot)
      → can_reserve id tenant n version s ≡ true
      → not (s.id == id) ≡ false
  reserve-id id n version s h = ground arith

  seats_after :
      (id n : ℕ) (s : AvailabilitySlot)
      → find_first (named id tenant) w.db.slots ≡ some s
      → s.reserved_seats + n ≤ s.capacity
      → find_first
          (named id tenant)
          (update_where (can_reserve s.id tenant n s.version) (take_seats n) w.db.slots)
        ≡ some (take_seats n s)
  seats_after id n s found room =
      let here = find_first_sound (named id tenant) w.db.slots s found in
      rw
        (find_first-update (named id tenant) (can_reserve s.id tenant n s.version) (take_seats n)
          w.db.slots s (λ y. refl) found)
        (rw (can_reserve_self w tenant s id n here room) refl)

  reservation-IsReserved :
      (num : Numeric) (draw : Draw) (user : ℕ) (body : CreateBookingBody) (s : BookingSummary)
      (v : World)
      → IsReservation w num draw tenant user body s v
      → IsReserved w num draw tenant user body s v
  unfolding to_booking_summary
  reservation-IsReserved num draw user body s v (d, read, room, done) =
      let (found, there, active, rules) = find_slot-found body.slot_id d read in
      let same =
        named-id body.slot_id d.slot
          (find_first_sound (named body.slot_id tenant) w.db.slots d.slot found) in
      record {
        slot = d.slot;
        experience = d.experience;
        price =
            calculate_pricing_preview num draw.now d.experience.base_price body.party_size d.rules
              (some d.slot.starts_at);
        slot_found = found;
        experience_found = there;
        is_active = active;
        has_room = room;
        priced = rw rules refl;
        booked = rw done.1 (rw same refl);
        seats_taken = rw done.1 (seats_after body.slot_id body.party_size d.slot found room);
        others_kept = rw done.1 (
            keep-update _ _ (take_seats body.party_size) w.db.slots (
              All-every _ w.db.slots (λ x h.
                let own = reserve-id d.slot.id body.party_size d.slot.version x h in
                let own' = ap (λ n. not (x.id == n)) (sym same) ∙ own in (own', own'))));
        recorded = ap (λ (u : World). u.db.history) done.1;
        enqueued = ap (λ (u : World). u.queued) done.1;
        summarised = done.0;
      }

  -- A reservation of at least one seat that returns found the slot in the caller's tenant, under an active
  -- experience and with room for the party. It has added one booking of the caller, reserved until the
  -- hold ends, has counted the party in the slot and raised its version once, has left every other
  -- slot as it was, has added one row to the history, and has enqueued one webhook and one invalidation;
  -- besides, it has written one audit entry, and nothing else.
  pub create_reservation-IsReserved :
      (num : Numeric) (draw : Draw) (user : ℕ) (body : CreateBookingBody) (s : BookingSummary)
      (w' : World)
      → 0 < body.party_size
      → create_reservation num draw tenant user body w ≡ (ok s, w')
      → IsReserved w num draw tenant user body s w' × IsReservation w num draw tenant user body s w'
  create_reservation-IsReserved num draw user body s w' size is =
      let done = create_reservation_sound w num draw tenant user body s w' size is in
      (reservation-IsReserved num draw user body s w' done, done)

  slot_detail :
      (id : ℕ) (slot : AvailabilitySlot) (e : Experience)
      → find_first (named id tenant) w.db.slots ≡ some slot
      → find_first (λ (x : Experience). x.id == slot.experience_id) w.db.experiences ≡ some e
      → e.active ≡ true
      → find_slot tenant id w
        ≡ (ok (record { slot = slot; experience = e; rules = active_rules e.supplier_id w.db }), w)
  unfolding find_slot
  slot_detail id slot e found there active = rw found (rw there (rw active refl))

  -- A reservation is granted where a slot of the caller's tenant has the wanted identifier, its experience
  -- is active, the party is of at least one and fits, and no booking has the new row's identifier or
  -- reference: the booking is reserved and the seats are taken.
  pub create_reservation_accepts :
      (num : Numeric) (draw : Draw) (user : ℕ) (body : CreateBookingBody) (slot : AvailabilitySlot)
      (e : Experience)
      → find_first
          (λ (x : AvailabilitySlot). x.id == body.slot_id && x.tenant_id == tenant)
          w.db.slots
        ≡ some slot
      → find_first (λ (x : Experience). x.id == slot.experience_id) w.db.experiences ≡ some e
      → e.active ≡ true
      → 0 < body.party_size
      → slot.reserved_seats + body.party_size ≤ slot.capacity
      → find_first (clashes draw.booking_id draw.reference) w.db.bookings ≡ none
      → (s : BookingSummary) × (w' : World) × (create_reservation num draw tenant user body w
          ≡ (ok s, w'))
        × IsReserved w num draw tenant user body s w'
  create_reservation_accepts num draw user body slot e found there active size room free =
      let done =
        create_reservation-found w tenant num draw user body
          (record { slot = slot; experience = e; rules = active_rules e.supplier_id w.db })
          (slot_detail body.slot_id slot e found there active) size room free in
      (_, _, done, (create_reservation-IsReserved num draw user body _ _ size done).0)
