-- ===== src/Search/Sound.antt =====
-- What an item of a search says, in src/services/experience.service.ts: its experience, its slots and its price.
use booking_availability_pla.Shared.{
  ℕ, ℤ, ◌≡◌, refl, sym, ap, ◌∙◌, Bool, true, false, ◌&&◌, Option, none, some, List, [], ◌∷◌, map,
  ◌==◌, ==_iff, Bool-cases, inl, inr, if◌then◌else◌, keep, keep_sound, length, find_first, All,
  All-map, All-pair, All-keep, All-take, All-drop, All-sort_with, All-map_weaken, some-injective,
  Unique, Unique-find_first,
}
use booking_availability_pla.Model.{Db, Experience, Supplier, AvailabilitySlot}
use booking_availability_pla.Dates.{Calendar}
use booking_availability_pla.Pricing.Numbers.{Numeric}
use booking_availability_pla.Listing.Pages.{page_of}
use booking_availability_pla.Search.Query.{
  Collation, ExperienceSort, by_price, by_starts_at, by_title, by_available_spots,
  ExperienceSearchQuery, experience_where,
}
use booking_availability_pla.Search.Prices.{empty_map}
use booking_availability_pla.Search.Rows.{
  GroupedExperienceRow, includes_id, open_slots, earliest, group_found, cons_row, groups, grouped,
}
use booking_availability_pla.Search.Experiences.{
  ExperienceSearchItem, price_or_base, to_search_item, row_id, experience_id, matching_ids,
  ordered_rows, slot_rows, experience_by_id, total_of, prices_of, items_by_row, page_items,
  compute_search,
}
use booking_availability_pla.Search.Ids.{
  includes_id_self, includes_id-All, find_first-keep, keep-keep,
}
use booking_availability_pla.Search.Starts.{IsFirstStart, earliest-IsFirstStart}
use booking_availability_pla.Search.Lowest.{least, from_prices-least}

-- If there is a slot, the price that stands in for a missing one is not used.
least-price_or_base :
    (f : AvailabilitySlot → ℤ) (slots : List AvailabilitySlot) (at : ℕ) (base : ℤ)
    → earliest slots ≡ some at
    → least f slots ≡ some (price_or_base (least f slots) base)
least-price_or_base f [] at base e = cc
least-price_or_base f (s ∷ ss) at base e = refl

if_true : (b : Bool) → (if b then true else false) ≡ b
if_true true = refl
if_true false = refl

if_false : (b : Bool) → (if b then false else false) ≡ false
if_false true = refl
if_false false = refl

asked_and_open : (a b c : Bool) → (c ≡ true → a ≡ true) → (if a && b then c else false) ≡ c && b
asked_and_open a b true h = rw (h refl) (if_true b)
asked_and_open a b false h = if_false (a && b)

module _ (num : Numeric) (calendar : Calendar) (collation : Collation) (now : ℕ) (db : Db)
    (tenant_id : ℕ) (query : ExperienceSearchQuery) where
  abbrev open_of : ℕ → List AvailabilitySlot
  open_of id = open_slots calendar db tenant_id query id

  abbrev total : Experience → AvailabilitySlot → ℤ
  total e s = total_of num calendar collation now db tenant_id query e s

  abbrev found : ℕ → Option Experience
  found id = find_first (λ (e : Experience). e.id == id) db.experiences

  -- What an item has to say, of the rows of the database.
  abbrev pub IsItem : ExperienceSearchItem → Type 0
  IsItem item =
      (e : Experience) × (found item.id ≡ some e)
      × (experience_where collation tenant_id query e ≡ true)
      × (least (total e) (open_of item.id) ≡ some item.from_price)
      × (length (open_of item.id) ≡ item.available_slots)
      × (earliest (open_of item.id) ≡ some item.earliest_slot_at)
      × IsFirstStart item.earliest_slot_at (open_of item.id)

  abbrev IsMatch : Experience → Type 0
  IsMatch e = (found e.id ≡ some e) × (experience_where collation tenant_id query e ≡ true)

  abbrev IsRow : GroupedExperienceRow → Type 0
  IsRow row =
      IsMatch row.experience
      × (includes_id (matching_ids num calendar collation now db tenant_id query) row.experience.id
          ≡ true)
      × (length (open_of row.experience.id) ≡ row.available_slots)
      × (earliest (open_of row.experience.id) ≡ some row.earliest_slot_at)

  match-tenant :
      (e : Experience)
      → experience_where collation tenant_id query e ≡ true
      → (e.tenant_id == tenant_id) ≡ true
  match-tenant e h = elim (Bool-cases (e.tenant_id == tenant_id)) [
    | inl own ↦ own
    | inr other ↦ cc (rw other at h)
  ]

  -- The price of an experience whose id is asked for.
  prices_of-least :
      (ids : List ℕ) (e : Experience)
      → IsMatch e
      → includes_id ids e.id ≡ true
      → prices_of num calendar collation now db tenant_id query ids e.id
        ≡ least (total e) (open_of e.id)
  unfolding prices_of
  prices_of-least ids e m i =
      from_prices-least (experience_by_id num calendar collation now db tenant_id query ids)
        (total_of num calendar collation now db tenant_id query) e.id e
        (find_first-keep _ _ db.experiences e m.0 (rw (match-tenant e m.1, i) refl))
        (slot_rows num calendar collation now db tenant_id query ids) empty_map
      ∙ ap (least (total e)) (
          keep-keep _ _ _ db.slots (λ s.
            asked_and_open (includes_id ids s.experience_id) _ _
              (λ here. ap (includes_id ids) ((==_iff s.experience_id e.id).0 here) ∙ i)))

  match_found :
      (e : Experience)
      → Unique experience_id db.experiences
      → found e.id ≡ some e
      → includes_id (matching_ids num calendar collation now db tenant_id query) e.id ≡ true
      → experience_where collation tenant_id query e ≡ true
  match_found e unique f i =
      let (x, m, same) =
        includes_id-All experience_id IsMatch
          (keep (experience_where collation tenant_id query) db.experiences) e.id
          (All-pair _ _ _ (All-keep _ _ _ (Unique-find_first experience_id db.experiences unique))
            (keep_sound _ db.experiences))
          i in
      let is_x : x ≡ e = some-injective x e (sym m.0 ∙ rw same f) in
      ap (experience_where collation tenant_id query) (sym is_x) ∙ m.1

  group_found-IsRow :
      (e : Experience) (supplier : Option Supplier) (at : Option ℕ)
      → IsMatch e
      → includes_id (matching_ids num calendar collation now db tenant_id query) e.id ≡ true
      → earliest (open_of e.id) ≡ at
      → (rows : List GroupedExperienceRow) → All IsRow rows
      → All IsRow (
          cons_row calendar db tenant_id query
            (group_found calendar db tenant_id query e (open_of e.id) supplier at)
            rows)
  group_found-IsRow e none at m i h rows r = r
  group_found-IsRow e (some supplier) none m i h rows r = r
  group_found-IsRow e (some supplier) (some at) m i h rows r = ((m, i, refl, h), r)

  abbrev ids_of : List ℕ
  ids_of = matching_ids num calendar collation now db tenant_id query

  groups-IsRow :
      (es : List Experience)
      → All (λ e. (found e.id ≡ some e) × (includes_id ids_of e.id ≡ true)) es
      → Unique experience_id db.experiences
      → All IsRow (groups calendar db tenant_id query es)
  groups-IsRow [] h unique = tt
  groups-IsRow (e ∷ es) h unique =
      group_found-IsRow e _ _ (h.0.0, match_found e unique h.0.0 h.0.1) h.0.1 refl _
        (groups-IsRow es h.1 unique)

  ordered_rows-IsRow :
      Unique experience_id db.experiences
      → All IsRow (ordered_rows num calendar collation now db tenant_id query)
  unfolding grouped
  ordered_rows-IsRow unique = All-sort_with _ _ _ (
      groups-IsRow _
        (All-pair _ _ _ (All-keep _ _ _ (Unique-find_first experience_id db.experiences unique))
          (keep_sound _ db.experiences))
        unique)

  -- The item of a row, if the prices are those of a list of ids that has the row's.
  row-IsItem :
      (ids : List ℕ) (row : GroupedExperienceRow)
      → includes_id ids (row_id row) ≡ true
      → IsRow row
      → IsItem
          (to_search_item query (prices_of num calendar collation now db tenant_id query ids) row)
  row-IsItem ids row i (m, j, slots, at) = (
    row.experience,
    m.0,
    m.1,
    rw (prices_of-least ids row.experience m i)
        (least-price_or_base (total row.experience) _ row.earliest_slot_at _ at),
    slots,
    at,
    earliest-IsFirstStart _ row.earliest_slot_at at,
  )

  All-page_of :
      (P : GroupedExperienceRow → Type 0) (page page_size : ℕ) (rows : List GroupedExperienceRow)
      → All P rows
      → All P (page_of page page_size rows)
  All-page_of P page page_size rows h = All-take P page_size _ (All-drop P _ rows h)

  items_by_row-IsItem :
      (rows : List GroupedExperienceRow)
      → All IsRow rows
      → All IsItem (items_by_row num calendar collation now db tenant_id query rows)
  items_by_row-IsItem rows h = All-map _ _ rows (
      All-map_weaken _ (λ row k. row-IsItem (map row_id rows) row k.0 k.1) rows
        (All-pair _ _ rows (includes_id_self row_id rows) h))

  page_items-IsItem :
      (sort : ExperienceSort)
      → Unique experience_id db.experiences
      → All IsItem (page_items num calendar collation now db tenant_id query sort)
  page_items-IsItem by_price unique = All-map _ _ _ (
      All-map_weaken _ (λ row k. row-IsItem ids_of row k.1 k) _
        (All-page_of IsRow query.page query.page_size _
          (All-sort_with _ _ _ (ordered_rows-IsRow unique))))
  page_items-IsItem by_starts_at unique =
      items_by_row-IsItem _
        (All-page_of IsRow query.page query.page_size _ (ordered_rows-IsRow unique))
  page_items-IsItem by_title unique =
      items_by_row-IsItem _
        (All-page_of IsRow query.page query.page_size _ (ordered_rows-IsRow unique))
  page_items-IsItem by_available_spots unique =
      items_by_row-IsItem _
        (All-page_of IsRow query.page query.page_size _ (ordered_rows-IsRow unique))

  -- If no two experiences share an id, then each item of a search is of an experience of the database that
  -- meets the query's conditions on experiences, its `fromPrice` is the least of the totals that the price
  -- preview gives over the experience's open slots, and `availableSlots` and `earliestSlotAt` are the number
  -- of these slots and the start of one of them that none starts before, whatever the sort and the page.
  pub compute_search_sound :
      Unique experience_id db.experiences
      → All IsItem (compute_search num calendar collation now db tenant_id query).items
  unfolding compute_search
  compute_search_sound unique = elim (Bool-cases (length ids_of == 0)) [
    | inl nothing ↦ rw nothing tt
    | inr some_match ↦ rw some_match (page_items-IsItem query.sort_by unique)
  ]
