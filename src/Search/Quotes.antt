-- ===== src/Search/Quotes.antt =====
-- What src/services/experience.service.ts offers is what src/services/booking.service.ts grants.
use booking_availability_pla.Shared.{
  ℕ, ◌<◌, ◌≡◌, refl, sym, ap, subst, ◌∙◌, true, none, some, arith, find_first, ◌==◌, keep, All,
  All-map, All-keep, All-pair, All-sort_with, All-map_weaken, keep_sound, Unique, Unique-find_first,
  find_first-key, find_first-stronger, find_first_sound, Bool-cases, inl, inr,
}
use booking_availability_pla.Errors.{not_found_error}
use booking_availability_pla.Model.{Experience, Supplier, AvailabilitySlot, reserved}
use booking_availability_pla.Dates.{Calendar}
use booking_availability_pla.Service.{
  World, ok, or_throw, throw_if, gets, follow, follow-eq-ok, ok-injective, or_throw-eq-ok,
}
use booking_availability_pla.Pricing.Numbers.{Numeric}
use booking_availability_pla.Pricing.Preview.{calculate_pricing_preview}
use booking_availability_pla.Booking.Views.{
  BookingSummary, to_booking_summary, or_fault, or_fault-eq-ok,
}
use booking_availability_pla.Booking.Reserve.{
  Draw, CreateBookingBody, SlotDetail, active_rules, find_slot, create_reservation, new_booking,
}
use booking_availability_pla.Booking.Seats.{slot_key}
use booking_availability_pla.Booking.Outcomes.{clashes, reserved_world}
use booking_availability_pla.Booking.Atomic.{preview_of}
use booking_availability_pla.Booking.Accepts.{named, create_reservation-found}
use booking_availability_pla.Search.Query.{ExperienceDetailQuery, detail_where}
use booking_availability_pla.Search.Experiences.{experience_id}
use booking_availability_pla.Search.Detail.{
  ExperienceSlotPreview, ExperienceDetailResult, is_offered, misses_slot, detail_slots, to_detail,
  to_slot_preview, compute_detail,
}

-- A reservation of a slot, as it is offered, for a party: it is granted, at the price that was shown.
abbrev pub IsGranted : Numeric → Draw → ℕ → ℕ → ℕ → World → ExperienceSlotPreview → Type 0
IsGranted num draw tenant user party_size w p =
    (s : BookingSummary) × (v : World) × (create_reservation num draw tenant user
        (record { slot_id = p.slot_id; party_size = party_size }) w
      ≡ (ok s, v))
    × (s.status ≡ reserved)
    × (s.party_size ≡ party_size)
    × (s.total_price ≡ p.pricing_preview.total_price)

named_parts :
    (id tenant : ℕ) (y : AvailabilitySlot) → named id tenant y ≡ true → (y.id == id) ≡ true
named_parts id tenant y k = ground arith

module _ (num : Numeric) (calendar : Calendar) (now tenant eid : ℕ) (query : ExperienceDetailQuery)
    (w : World) where
  answer :
      (x : Experience) (sup : Supplier) (d : ExperienceDetailResult) (v w' : World)
      → follow
          (λ _. gets (λ db.
            to_detail num calendar now tenant eid query db x sup
              (detail_slots num calendar now tenant eid query v.db)))
          (throw_if
            (misses_slot query.slot_id (detail_slots num calendar now tenant eid query v.db))
            (not_found_error "Slot not found for this experience")
            v)
        ≡ (ok d, w')
      → d
        ≡ to_detail num calendar now tenant eid query v.db x sup
            (detail_slots num calendar now tenant eid query v.db)
  answer x sup d v w' e =
      elim (Bool-cases
        (misses_slot query.slot_id (detail_slots num calendar now tenant eid query v.db))) [
          | inl missing ↦ cc (rw missing at e)
          | inr there ↦ (ok-injective _ d v w' (rw there at e)).0
        ]

  compute_detail_sound :
      (d : ExperienceDetailResult) (w' : World)
      → compute_detail num calendar now tenant eid query w ≡ (ok d, w')
      → (e : Experience) × (supplier : Supplier) × (find_first
            (is_offered tenant eid)
            w.db.experiences
          ≡ some e)
        × (d
            ≡ to_detail num calendar now tenant eid query w.db e supplier
                (detail_slots num calendar now tenant eid query w.db))
  unfolding compute_detail
  compute_detail_sound d w' e =
      let (x, v, got, rest) =
        follow-eq-ok _ (or_throw (find_first (is_offered tenant eid) w.db.experiences) _ w) d w'
          e in
      let (found, same) = or_throw-eq-ok _ _ x w v got in
      let (sup, v', included, more) =
        follow-eq-ok _
          (or_fault (find_first (λ (s : Supplier). s.id == x.supplier_id) v.db.suppliers) v) d w'
          rest in
      let same' = (or_fault-eq-ok _ sup v v' included).1 in
      (
        x,
        sup,
        found,
        subst
            (λ (u : World).
              d
              ≡ to_detail num calendar now tenant eid query u.db x sup
                  (detail_slots num calendar now tenant eid query u.db))
            (same' ∙ same) (answer x sup d v' w' more),
      )

  -- A slot that a detail offers, as a reservation finds it.
  abbrev detail_of : Experience → AvailabilitySlot → SlotDetail
  detail_of e s = record { slot = s; experience = e; rules = active_rules e.supplier_id w.db }

  module _ (e : Experience) (offered : find_first (is_offered tenant eid) w.db.experiences ≡ some e)
      (unique_experiences : Unique experience_id w.db.experiences) where
    slot_experience :
        (s : AvailabilitySlot)
        → detail_where calendar tenant eid query s ≡ true
        → (find_first (λ (x : Experience). x.id == s.experience_id) w.db.experiences ≡ some e)
          × (e.active ≡ true)
    slot_experience s h =
        let test = find_first_sound (is_offered tenant eid) w.db.experiences e offered in
        let here = find_first-key experience_id _ w.db.experiences e unique_experiences offered in
        let same : s.experience_id ≡ e.id = ground arith in (rw same here, ground arith)

    slot_found :
        (s : AvailabilitySlot)
        → detail_where calendar tenant eid query s ≡ true
        → find_first (λ (y : AvailabilitySlot). y.id == s.id) w.db.slots ≡ some s
        → find_slot tenant s.id w ≡ (ok (detail_of e s), w)
    unfolding find_slot
    slot_found s h here =
        let (there, active) = slot_experience s h in
        let found =
          find_first-stronger (named s.id tenant) (λ (y : AvailabilitySlot). y.id == s.id)
            w.db.slots s (λ y k. named_parts s.id tenant y k) (ground arith) here in
        rw found (rw there (rw active refl))

    module _ (user : ℕ) (draw : Draw) (at : draw.now ≡ now) (size : 0 < query.party_size)
        (free : find_first (clashes draw.booking_id draw.reference) w.db.bookings ≡ none) where
      granted :
          (s : AvailabilitySlot)
          → detail_where calendar tenant eid query s ≡ true
          → find_first (λ (y : AvailabilitySlot). y.id == s.id) w.db.slots ≡ some s
          → IsGranted num draw tenant user query.party_size w
              (to_slot_preview num calendar now tenant eid query w.db e s)
      unfolding to_booking_summary
      granted s h here =
          let body : CreateBookingBody = record { slot_id = s.id; party_size = query.party_size } in
          let preview = preview_of w num draw body (detail_of e s) in
          (
            to_booking_summary (new_booking draw tenant user body s preview),
            reserved_world draw tenant user body s preview w,
            create_reservation-found w tenant num draw user body (detail_of e s)
                (slot_found s h here) size (ground arith) free,
            refl,
            refl,
            ap
                (λ t.
                  (calculate_pricing_preview num t e.base_price query.party_size
                    (active_rules e.supplier_id w.db) (some s.starts_at)).total_price)
                at,
          )

      All-IsGranted :
          (sup : Supplier)
          → Unique slot_key w.db.slots
          → All
              (IsGranted num draw tenant user query.party_size w)
              (to_detail num calendar now tenant eid query w.db e sup
                (detail_slots num calendar now tenant eid query w.db)).slots
      All-IsGranted sup unique =
          let where_slot = detail_where calendar tenant eid query in
          All-map _ (to_slot_preview num calendar now tenant eid query w.db e) _ (
            All-sort_with _ _ (keep where_slot w.db.slots) (
              All-map_weaken _ (λ s h. granted s h.0 h.1) (keep where_slot w.db.slots)
                (All-pair _ _ (keep where_slot w.db.slots) (keep_sound where_slot w.db.slots) (
                  All-keep _ where_slot w.db.slots
                    (Unique-find_first slot_key w.db.slots unique)))))

  -- Every slot that the detail of an experience offers to a party can be reserved for the party there and
  -- then, at the price that the detail shows for it, where slots and experiences have unique identifiers
  -- and those of the new row are free.
  pub compute_detail-IsGranted :
      (user : ℕ) (draw : Draw) (d : ExperienceDetailResult) (w' : World)
      → draw.now ≡ now
      → 0 < query.party_size
      → Unique slot_key w.db.slots
      → Unique experience_id w.db.experiences
      → find_first (clashes draw.booking_id draw.reference) w.db.bookings ≡ none
      → compute_detail num calendar now tenant eid query w ≡ (ok d, w')
      → All (IsGranted num draw tenant user query.party_size w) d.slots
  compute_detail-IsGranted user draw d w' at size slots experiences free shown =
      let (e, sup, offered, same) = compute_detail_sound d w' shown in
      subst
        (λ (r : ExperienceDetailResult).
          All (IsGranted num draw tenant user query.party_size w) r.slots)
        (sym same) (All-IsGranted e offered experiences user draw at size free sup slots)
