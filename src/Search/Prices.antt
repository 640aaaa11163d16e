-- ===== src/Search/Prices.antt =====
-- `fromPriceByExperienceId` of `searchExperiences` in src/services/experience.service.ts: the loop over the
-- open slots that keeps the lowest total for each experience.
use booking_availability_pla.Shared.{
  ℕ, ℤ, Bool, true, not, Option, none, some, List, [], ◌∷◌, ◌==◌, if◌then◌else◌,
}
use booking_availability_pla.Model.{Experience, AvailabilitySlot}
use booking_availability_pla.Listing.Bookings.{leb_ℤ}

-- A `Map` from experiences to prices.
abbrev pub PriceMap : Type 0
PriceMap = ℕ → Option ℤ

abbrev pub empty_map : PriceMap
empty_map id = none

abbrev pub set_price : ℕ → ℤ → PriceMap → PriceMap
set_price id price m k = if k == id then some price else m k

-- `existing === undefined || total < existing`
abbrev pub is_lower : ℤ → Option ℤ → Bool
is_lower total none = true
is_lower total (some existing) = not (leb_ℤ existing total)

module _ (find_experience : ℕ → Option Experience)
    (total_of : Experience → AvailabilitySlot → ℤ) where
  abbrev pub add_found : AvailabilitySlot → Option Experience → PriceMap → PriceMap
  add_found slot none m = m
  add_found slot (some e) m =
      if is_lower (total_of e slot) (m slot.experience_id)
      then set_price slot.experience_id (total_of e slot) m
      else m

  -- The loop.
  unfoldable pub from_prices : List AvailabilitySlot → PriceMap → PriceMap
  from_prices [] m = m
  from_prices (slot ∷ slots) m =
      from_prices slots (add_found slot (find_experience slot.experience_id) m)
