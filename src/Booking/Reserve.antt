-- ===== src/Booking/Reserve.antt =====
-- `createReservation` of src/services/booking.service.ts. The clock, the identifier that the database
-- draws and the reference that `generateBookingReference` draws are arguments.
use booking_availability_pla.Shared.{
  ℕ, pos, ◌+◌, ◌*◌, String, true, false, ◌&&◌, ◌||◌, not, none, some, List, [], ◌∷◌, ◌++◌, map, ltb,
  ◌==◌, same_text, find_first, keep,
}
use booking_availability_pla.Errors.{conflict_error, not_found_error}
use booking_availability_pla.Model.{
  json_object, text, uuid, number, Db, Booking, AvailabilitySlot, Experience, PricingRule, reserved,
  booking_reserved, booking_entity, reserved_event,
}
use booking_availability_pla.Pricing.Numbers.{Numeric}
use booking_availability_pla.Pricing.Preview.{
  PricingRuleConfig, PricingPreview, calculate_pricing_preview,
}
use booking_availability_pla.Service.{
  Action, ◌>>=◌, ◌>>◌, gets, modify, or_throw, throw_if, fault_if, pure, enqueue, booking_webhook,
  availability_invalidation,
}
use booking_availability_pla.Audit.{AuditContext, with_audited_transaction}
use booking_availability_pla.Booking.Slots.{adjust_slot_reserved, append_status_history}
use booking_availability_pla.Booking.Views.{BookingSummary, to_booking_summary, or_fault, by_id}

pub record CreateBookingBody : Type 0 where
  pub slot_id : ℕ
  pub party_size : ℕ

-- What a call takes from its surroundings.
pub record Draw : Type 0 where
  pub now : ℕ
  pub ttl_seconds : ℕ
  pub booking_id : ℕ
  pub reference : String

-- `pricingRules: { where: { active: true } }` of a supplier.
abbrev pub active_rules : ℕ → Db → List PricingRuleConfig
active_rules supplier_id db =
    map (λ (r : PricingRule). record { rule_type = r.rule_type; config = r.config })
      (keep (λ (r : PricingRule). r.supplier_id == supplier_id && r.active) db.rules)

-- A slot with what `include` brings along.
pub record SlotDetail : Type 0 where
  pub slot : AvailabilitySlot
  pub experience : Experience
  pub rules : List PricingRuleConfig

unfoldable pub find_slot : ℕ → ℕ → Action SlotDetail
find_slot tenant_id slot_id = do
  found ← gets (λ db.
      find_first (λ (s : AvailabilitySlot). s.id == slot_id && s.tenant_id == tenant_id) db.slots)
  slot ← or_throw found (not_found_error "Slot not found")
  e ← gets (λ db. find_first (λ (x : Experience). x.id == slot.experience_id) db.experiences)
  experience ← or_fault e
  throw_if (not experience.active) (not_found_error "Slot not found")
  rules ← gets (active_rules experience.supplier_id)
  pure (record { slot = slot; experience = experience; rules = rules })

-- `tx.booking.create`: the primary key and the unique `reference` are the database's to check.
unfoldable pub create_booking : Booking → Action Booking
create_booking b = do
  taken ← gets (λ db.
      find_first (λ (x : Booking). by_id b.id x || same_text x.reference b.reference) db.bookings)
  fault_if (elim taken [ none ↦ false | some _ ↦ true ]) "Unique constraint failed"
  modify (λ db. record db { bookings = db.bookings ++ b ∷ [] })
  pure b

abbrev pub new_booking :
    Draw → ℕ → ℕ → CreateBookingBody → AvailabilitySlot → PricingPreview → Booking
new_booking draw tenant_id user_id body slot preview = record {
  id = draw.booking_id;
  reference = draw.reference;
  tenant_id = tenant_id;
  user_id = user_id;
  experience_id = slot.experience_id;
  slot_id = slot.id;
  party_size = body.party_size;
  total_price = preview.total_price;
  status = reserved;
  reserved_until = some (draw.now + draw.ttl_seconds * 1000);
  created_at = draw.now;
}

-- The body of the transaction.
unfoldable pub reserve_seats :
    Draw → ℕ → ℕ → CreateBookingBody → AvailabilitySlot → PricingPreview → Action Booking
reserve_seats draw tenant_id user_id body slot preview = do
  adjust_slot_reserved slot.id tenant_id (pos body.party_size) slot.version
  created ← create_booking (new_booking draw tenant_id user_id body slot preview)
  append_status_history draw.now created.id none reserved (some user_id) none
  pure created

abbrev pub reserved_audit : ℕ → ℕ → Booking → AuditContext
reserved_audit tenant_id user_id created = record {
  event_type = booking_reserved;
  tenant_id = some tenant_id;
  actor_user_id = some user_id;
  entity_type = booking_entity;
  entity_id = some created.id;
  metadata = json_object (
      ("booking_ref", text created.reference)
      ∷ ("slot_id", uuid created.slot_id)
      ∷ ("party_size", number created.party_size)
      ∷ []);
}

-- What runs after the slot was read: the transaction, and the work that it leaves behind.
unfoldable pub commit_reservation :
    Draw → ℕ → ℕ → CreateBookingBody → AvailabilitySlot → PricingPreview → Action BookingSummary
commit_reservation draw tenant_id user_id body slot preview = do
  booking ←
      with_audited_transaction draw.now (reserve_seats draw tenant_id user_id body slot preview)
        (reserved_audit tenant_id user_id)
  enqueue (booking_webhook tenant_id reserved_event booking.id)
  enqueue (availability_invalidation tenant_id)
  pure (to_booking_summary booking)

module _ (num : Numeric) where
  unfoldable pub create_reservation : Draw → ℕ → ℕ → CreateBookingBody → Action BookingSummary
  unfolding find_slot commit_reservation
  create_reservation draw tenant_id user_id body = do
    detail ← find_slot tenant_id body.slot_id
    throw_if (ltb detail.slot.capacity (detail.slot.reserved_seats + body.party_size))
        (conflict_error "Slot no longer available")
    commit_reservation draw tenant_id user_id body detail.slot (
        calculate_pricing_preview num draw.now detail.experience.base_price body.party_size
          detail.rules (some detail.slot.starts_at))
