-- ===== src/Search/Experiences.antt =====
-- `searchExperiences` of src/services/experience.service.ts. The cache is that of Cache.Store; a write to
-- it that fails is only logged, and `stored` says whether it went through.
use booking_availability_pla.Shared.{
  ℕ, ℤ, String, Bool, Option, none, some, List, [], map, ◌&&◌, ◌==◌, if◌then◌else◌, keep, length,
  find_first, sort_with,
}
use booking_availability_pla.Model.{Db, Experience, AvailabilitySlot}
use booking_availability_pla.Dates.{Calendar}
use booking_availability_pla.Pricing.Numbers.{Numeric}
use booking_availability_pla.Pricing.Preview.{calculate_pricing_preview}
use booking_availability_pla.Booking.Reserve.{active_rules}
use booking_availability_pla.Listing.Bookings.{directed, leb_ℤ}
use booking_availability_pla.Listing.Pages.{PaginationMeta, pagination, page_of}
use booking_availability_pla.Cache.Store.{Store, get_cached_search, set_cached_search}
use booking_availability_pla.Search.Query.{
  Collation, ExperienceSort, by_price, ExperienceSearchQuery, experience_where, is_open,
}
use booking_availability_pla.Search.Prices.{PriceMap, empty_map, from_prices}
use booking_availability_pla.Search.Rows.{GroupedExperienceRow, includes_id, grouped, row_le}

pub record ExperienceSearchItem : Type 0 where
  pub id : ℕ
  pub title : String
  pub destination : String
  pub description : Option String
  pub base_price : ℤ
  pub capacity : ℕ
  pub supplier_id : ℕ
  pub supplier_name : String
  pub party_size : ℕ
  pub from_price : ℤ
  pub available_slots : ℕ
  pub earliest_slot_at : ℕ

pub record ExperienceSearchResult : Type 0 where
  pub items : List ExperienceSearchItem
  pub page : PaginationMeta

-- `… ?? row.basePrice`
abbrev pub price_or_base : Option ℤ → ℤ → ℤ
price_or_base none base = base
price_or_base (some price) base = price

abbrev pub price_of_row : PriceMap → GroupedExperienceRow → ℤ
price_of_row m row = price_or_base (m row.experience.id) row.experience.base_price

abbrev pub to_search_item :
    ExperienceSearchQuery → PriceMap → GroupedExperienceRow → ExperienceSearchItem
to_search_item query m row = record {
  id = row.experience.id;
  title = row.experience.title;
  destination = row.experience.destination;
  description = row.experience.description;
  base_price = row.experience.base_price;
  capacity = row.experience.capacity;
  supplier_id = row.supplier.id;
  supplier_name = row.supplier.name;
  party_size = query.party_size;
  from_price = price_of_row m row;
  available_slots = row.available_slots;
  earliest_slot_at = row.earliest_slot_at;
}

abbrev pub row_id : GroupedExperienceRow → ℕ
row_id row = row.experience.id

abbrev pub experience_id : Experience → ℕ
experience_id e = e.id

module _ (num : Numeric) (calendar : Calendar) (collation : Collation) (now : ℕ) (db : Db)
    (tenant_id : ℕ) (query : ExperienceSearchQuery) where
  -- `matchingExperiences`
  abbrev pub matching_ids : List ℕ
  matching_ids =
      map experience_id (keep (experience_where collation tenant_id query) db.experiences)

  abbrev pub ordered_rows : List GroupedExperienceRow
  ordered_rows =
      sort_with (directed query.sort_order (row_le collation query.sort_by))
        (grouped calendar db tenant_id query matching_ids)

  -- `slotRows` of the experiences `ids`.
  abbrev pub slot_rows : List ℕ → List AvailabilitySlot
  slot_rows ids =
      keep (λ s. includes_id ids s.experience_id && is_open calendar tenant_id query s) db.slots

  -- `experienceById`
  abbrev pub experience_by_id : List ℕ → ℕ → Option Experience
  experience_by_id ids id =
      find_first (λ (e : Experience). e.id == id)
        (keep (λ (e : Experience). e.tenant_id == tenant_id && includes_id ids e.id) db.experiences)

  abbrev pub total_of : Experience → AvailabilitySlot → ℤ
  total_of e slot =
      (calculate_pricing_preview num now e.base_price query.party_size
        (active_rules e.supplier_id db) (some slot.starts_at)).total_price

  unfoldable pub prices_of : List ℕ → PriceMap
  prices_of ids = from_prices (experience_by_id ids) total_of (slot_rows ids) empty_map

  abbrev pub price_le : PriceMap → GroupedExperienceRow → GroupedExperienceRow → Bool
  price_le m a b = leb_ℤ (price_of_row m a) (price_of_row m b)

  abbrev pub items_by_price : PriceMap → List ExperienceSearchItem
  items_by_price m = map (to_search_item query m) (
      page_of query.page query.page_size
        (sort_with (directed query.sort_order (price_le m)) ordered_rows))

  abbrev pub items_by_row : List GroupedExperienceRow → List ExperienceSearchItem
  items_by_row rows = map (to_search_item query (prices_of (map row_id rows))) rows

  -- `LIMIT` and `OFFSET` in the query, or a sort by the computed prices and a slice.
  abbrev pub page_items : ExperienceSort → List ExperienceSearchItem
  page_items by_price = items_by_price (prices_of matching_ids)
  page_items _ = items_by_row (page_of query.page query.page_size ordered_rows)

  -- What a search reads off the database.
  unfoldable pub compute_search : ExperienceSearchResult
  unfolding prices_of grouped
  compute_search =
      if length matching_ids == 0
      then record { items = []; page = pagination query.page query.page_size 0 }
      else record {
        items = page_items query.sort_by;
        page = pagination query.page query.page_size (length ordered_rows);
      }

  module _ (query_hash : ExperienceSearchQuery → String) (parse : String → ExperienceSearchResult)
      (stringify : ExperienceSearchResult → String) (ttl_seconds : ℕ) (stored : Bool) where
    abbrev pub or_computed : Option ExperienceSearchResult → Store → ExperienceSearchResult × Store
    or_computed (some cached) cache = (cached, cache)
    or_computed none cache = (
      compute_search,
      if stored
          then set_cached_search query_hash parse stringify now ttl_seconds tenant_id query
              compute_search cache
          else cache,
    )

    unfoldable pub search_experiences : Store → ExperienceSearchResult × Store
    search_experiences cache =
        or_computed (get_cached_search query_hash parse stringify now tenant_id query cache) cache
