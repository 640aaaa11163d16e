-- ===== src/Search/Tests.antt =====
-- Runs of src/services/experience.service.ts on a small database.
use booking_availability_pla.Shared.{
  pos, ◌≡◌, refl, true, some, none, List, [], ◌∷◌, arith, All, String, map, ◌+◌, length,
}
use booking_availability_pla.Service.{ok}
use booking_availability_pla.Dates.{Calendar}
use booking_availability_pla.Fixtures.{db, world, tour, fixed_point, guide}
use booking_availability_pla.Listing.Bookings.{asc}
use booking_availability_pla.Booking.Reserve.{Draw}
use booking_availability_pla.Pricing.Preview.{
  calculate_pricing_preview, apply_rules, apply_by_type, discount,
}
use booking_availability_pla.Pricing.Configs.{parse_group_size}
use booking_availability_pla.Cache.Store.{Store, search_key, get_cached_search}
use booking_availability_pla.Cache.Invalidation.{ScanReply, invalidate_scanned, scanned}
use booking_availability_pla.Search.Query.{
  Collation, by_price, ExperienceSearchQuery, ExperienceDetailQuery,
}
use booking_availability_pla.Search.Prices.{from_prices}
use booking_availability_pla.Search.Rows.{grouped}
use booking_availability_pla.Search.Experiences.{
  ExperienceSearchItem, ExperienceSearchResult, prices_of, compute_search, search_experiences,
}
use booking_availability_pla.Search.Detail.{
  ExperienceDetailResult, ExperienceSlotPreview, to_detail, detail_slots, compute_detail,
}
use booking_availability_pla.Search.Quotes.{IsGranted, compute_detail-IsGranted}
use booking_availability_pla.Search.Sound.{IsItem, compute_search_sound}
use booking_availability_pla.Search.Fresh.{search_experiences-fresh, search_experiences-repeat}

abbrev calendar : Calendar
calendar = record { parse_utc_date = λ s. 864000000 }

abbrev collation : Collation
collation = record { contains_insensitive = λ s p. true; text_le = λ s t. true }

-- A group of four, whose rule takes ten per cent off.
abbrev search : ExperienceSearchQuery
search = record {
  destination = some "rome";
  start_date = "1970-01-11";
  end_date = "1970-01-11";
  party_size = 4;
  supplier_id = none;
  min_price = none;
  max_price = some (record { digits = pos 2001; places = 1 });
  sort_by = by_price;
  sort_order = asc;
  page = 1;
  page_size = 20;
}

abbrev of_four : ExperienceDetailQuery
of_four = record { party_size = 4; slot_id = some 30; start_date = none; end_date = none }

abbrev draw : Draw
draw = record { now = 2000; ttl_seconds = 900; booking_id = 42; reference = "BK-NEW" }

from_prices_of_search :
    map
      (λ (i : ExperienceSearchItem). i.from_price)
      (compute_search fixed_point calendar collation 2000 db 1 search).items
    ≡ pos 18000 ∷ []
unfolding compute_search grouped prices_of from_prices calculate_pricing_preview apply_rules
    apply_by_type discount parse_group_size
from_prices_of_search = refl

compute_search_sound_example :
    All
      (IsItem fixed_point calendar collation 2000 db 1 search)
      (compute_search fixed_point calendar collation 2000 db 1 search).items
compute_search_sound_example =
    compute_search_sound fixed_point calendar collation 2000 db 1 search (tt, tt)

abbrev detail : ExperienceDetailResult
detail =
    to_detail fixed_point calendar 2000 1 20 of_four db tour guide
      (detail_slots fixed_point calendar 2000 1 20 of_four db)

detail_shown : compute_detail fixed_point calendar 2000 1 20 of_four world ≡ (ok detail, world)
unfolding compute_detail
detail_shown = refl

-- The detail offers the morning's slot, with its five free seats.
spots_of_detail : map (λ (p : ExperienceSlotPreview). p.available_spots) detail.slots ≡ 5 ∷ []
spots_of_detail = refl

compute_detail-IsGranted_example : All (IsGranted fixed_point draw 1 10 4 world) detail.slots
compute_detail-IsGranted_example =
    compute_detail-IsGranted fixed_point calendar 2000 1 20 of_four world 10 draw detail world refl
      (omega arith) (tt, tt) (tt, tt) refl detail_shown

-- A text for every query and every result, and the result that the text stands for.
abbrev text : {A : Type 0} → A → String
text a = "t"

abbrev found : ExperienceSearchResult
found = compute_search fixed_point calendar collation 2000 db 1 search

abbrev parse : String → ExperienceSearchResult
parse s = found

abbrev replies : List ScanReply
replies = record { cursor = 0; keys = search_key 1 "t" ∷ [] } ∷ []

abbrev store : Store
store = record { key = search_key 1 "t"; value = "old"; ends_at = 9000 } ∷ []

search_experiences-fresh_example :
    (after : Store) × (invalidate_scanned replies store 0
      ≡ some (after, 0 + length (scanned replies)))
    × ((search_experiences fixed_point calendar collation 5000 db 1 search text parse text 300 true
          after).0
        ≡ compute_search fixed_point calendar collation 5000 db 1 search)
search_experiences-fresh_example =
    search_experiences-fresh fixed_point calendar collation 1 search text parse text replies store 0
      5000 300 true db refl (refl, tt)

miss : get_cached_search text parse text 2000 1 search [] ≡ none
unfolding get_cached_search
miss = refl

search_experiences-repeat_example :
    (search_experiences fixed_point calendar collation 5000
      (record db { slots = [] })
      1
      search
      text
      parse
      text
      300
      true
      (search_experiences fixed_point calendar collation 2000 db 1 search text parse text 300 true
        []).1).0
    ≡ found
search_experiences-repeat_example =
    search_experiences-repeat fixed_point calendar collation 1 search text parse text [] 2000 5000
      300 true db (record db { slots = [] }) refl refl (omega arith) miss
