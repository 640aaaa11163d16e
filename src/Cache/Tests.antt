-- ===== src/Cache/Tests.antt =====
-- Runs of src/lib/availability-cache.ts.
use booking_availability_pla.Shared.{◌≡◌, refl, String, some, List, [], ◌∷◌, arith}
use booking_availability_pla.Cache.Store.{
  Store, search_key, detail_key, get_cached_search, set_cached_search,
  get_cached_search-set_cached_search,
}
use booking_availability_pla.Cache.Invalidation.{ScanReply, invalidate_scanned}

abbrev text_of : String → String
text_of s = s

-- Two entries of tenant 1 and one of tenant 2.
abbrev store : Store
store =
    record { key = search_key 1 "a"; value = "r1"; ends_at = 9000 }
    ∷ record { key = detail_key 2 20 "a"; value = "r2"; ends_at = 9000 }
    ∷ record { key = detail_key 1 20 "b"; value = "r3"; ends_at = 9000 }
    ∷ []

abbrev replies : List ScanReply
replies =
    record { cursor = 7; keys = search_key 1 "a" ∷ [] }
    ∷ record { cursor = 0; keys = detail_key 1 20 "b" ∷ search_key 1 "a" ∷ [] }
    ∷ []

get_cached_search-set_cached_search_example :
    get_cached_search text_of text_of text_of 5000 1 "q"
      (set_cached_search text_of text_of text_of 1000 300 1 "q" "rows" store)
    ≡ some "rows"
get_cached_search-set_cached_search_example =
    get_cached_search-set_cached_search text_of text_of text_of 1000 300 5000 1 "q" "rows" store
      refl refl (omega arith)

-- The other tenant's entry stays; three keys were reported.
one_left :
    invalidate_scanned replies store 0
    ≡ some (record { key = detail_key 2 20 "a"; value = "r2"; ends_at = 9000 } ∷ [], 3)
unfolding invalidate_scanned
one_left = refl
