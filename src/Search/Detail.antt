-- ===== src/Search/Detail.antt =====
-- `getExperienceDetail` of src/services/experience.service.ts.
use booking_availability_pla.Shared.{
  ℕ, ℤ, ◌-◌, String, Bool, true, false, ◌&&◌, Option, none, some, List, [], ◌∷◌, map, ◌==◌,
  if◌then◌else◌, keep, find_first, sort_by,
}
use booking_availability_pla.Errors.{not_found_error}
use booking_availability_pla.Model.{Db, Experience, Supplier, AvailabilitySlot}
use booking_availability_pla.Dates.{Calendar}
use booking_availability_pla.Service.{
  Action, World, Result, ok, err, ◌>>=◌, ◌>>◌, gets, or_throw, throw_if,
}
use booking_availability_pla.Pricing.Numbers.{Numeric}
use booking_availability_pla.Pricing.Preview.{PricingPreview, calculate_pricing_preview}
use booking_availability_pla.Booking.Views.{or_fault}
use booking_availability_pla.Booking.Reserve.{active_rules}
use booking_availability_pla.Cache.Store.{Store, get_cached_detail, set_cached_detail}
use booking_availability_pla.Search.Query.{ExperienceDetailQuery, detail_where}

pub record ExperienceSlotPreview : Type 0 where
  pub slot_id : ℕ
  pub starts_at : ℕ
  pub ends_at : ℕ
  pub slot_capacity : ℕ
  pub reserved_seats : ℕ
  pub available_spots : ℕ
  pub pricing_preview : PricingPreview

pub record ExperienceDetailResult : Type 0 where
  pub id : ℕ
  pub title : String
  pub destination : String
  pub description : Option String
  pub base_price : ℤ
  pub capacity : ℕ
  pub supplier_id : ℕ
  pub supplier_name : String
  pub supplier_email : Option String
  pub party_size : ℕ
  pub pricing_preview : PricingPreview
  pub slots : List ExperienceSlotPreview

abbrev pub is_offered : ℕ → ℕ → Experience → Bool
is_offered tenant_id experience_id e = e.id == experience_id && e.tenant_id == tenant_id && e.active

-- `query.slot_id && slots.length === 0`
abbrev pub misses_slot : Option ℕ → List AvailabilitySlot → Bool
misses_slot (some id) [] = true
misses_slot _ _ = false

-- `slots[0]?.startsAt`
abbrev pub first_start : List AvailabilitySlot → Option ℕ
first_start [] = none
first_start (s ∷ ss) = some s.starts_at

module _ (num : Numeric) (calendar : Calendar) (now tenant_id experience_id : ℕ)
    (query : ExperienceDetailQuery) where
  -- The open slots, by their start.
  abbrev pub detail_slots : Db → List AvailabilitySlot
  detail_slots db =
      sort_by (λ s. s.starts_at)
        (keep (detail_where calendar tenant_id experience_id query) db.slots)

  abbrev pub preview_at : Db → Experience → Option ℕ → PricingPreview
  preview_at db e at =
      calculate_pricing_preview num now e.base_price query.party_size
        (active_rules e.supplier_id db) at

  -- `capacity - reserved`, of a slot with room.
  abbrev pub to_slot_preview : Db → Experience → AvailabilitySlot → ExperienceSlotPreview
  to_slot_preview db e s = record {
    slot_id = s.id;
    starts_at = s.starts_at;
    ends_at = s.ends_at;
    slot_capacity = s.capacity;
    reserved_seats = s.reserved_seats;
    available_spots = s.capacity - s.reserved_seats;
    pricing_preview = preview_at db e (some s.starts_at);
  }

  abbrev pub to_detail : Db → Experience → Supplier → List AvailabilitySlot → ExperienceDetailResult
  to_detail db e supplier slots = record {
    id = e.id;
    title = e.title;
    destination = e.destination;
    description = e.description;
    base_price = e.base_price;
    capacity = e.capacity;
    supplier_id = supplier.id;
    supplier_name = supplier.name;
    supplier_email = supplier.email;
    party_size = query.party_size;
    pricing_preview = preview_at db e (first_start slots);
    slots = map (to_slot_preview db e) slots;
  }

  -- What the detail reads off the database.
  unfoldable pub compute_detail : Action ExperienceDetailResult
  compute_detail = do
    found ← gets (λ db. find_first (is_offered tenant_id experience_id) db.experiences)
    experience ← or_throw found (not_found_error "Experience not found")
    sup ← gets (λ db. find_first (λ (s : Supplier). s.id == experience.supplier_id) db.suppliers)
    supplier ← or_fault sup
    slots ← gets detail_slots
    throw_if (misses_slot query.slot_id slots)
        (not_found_error "Slot not found for this experience")
    gets (λ db. to_detail db experience supplier slots)

  module _ (query_hash : ExperienceDetailQuery → String) (parse : String → ExperienceDetailResult)
      (stringify : ExperienceDetailResult → String) (ttl_seconds : ℕ) (stored : Bool) where
    -- Only a result is cached; `stored` says whether the write went through.
    abbrev pub cache_detail : Result ExperienceDetailResult → Store → Store
    cache_detail (ok detail) cache =
        if stored
        then set_cached_detail query_hash parse stringify now ttl_seconds tenant_id experience_id
            query detail cache
        else cache
    cache_detail (err e) cache = cache

    abbrev pub or_computed_detail :
        Option ExperienceDetailResult
        → World
        → Store
        → (Result ExperienceDetailResult × World) × Store
    or_computed_detail (some cached) w cache = ((ok cached, w), cache)
    or_computed_detail none w cache = (compute_detail w, cache_detail (compute_detail w).0 cache)

    unfoldable pub get_experience_detail :
        World → Store → (Result ExperienceDetailResult × World) × Store
    get_experience_detail w cache =
        or_computed_detail
          (get_cached_detail query_hash parse stringify now tenant_id experience_id query cache) w
          cache
