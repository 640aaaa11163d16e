-- ===== src/Search/Fresh.antt =====
-- The cache around the search of src/services/experience.service.ts, with the loop of
-- src/lib/availability-cache.ts that empties it for a tenant.
use booking_availability_pla.Shared.{
  ℕ, ◌+◌, ◌*◌, ◌<◌, ◌≡◌, refl, String, Bool, true, false, none, some, List, length, All, same_text,
}
use booking_availability_pla.Model.{Db}
use booking_availability_pla.Dates.{Calendar}
use booking_availability_pla.Pricing.Numbers.{Numeric}
use booking_availability_pla.Cache.Store.{
  Store, get_cached_search, get_cached_search-set_cached_search,
}
use booking_availability_pla.Cache.Invalidation.{
  ScanReply, invalidate_scanned, ends_scan, scanned, is_reported, invalidate_scanned-missed,
}
use booking_availability_pla.Search.Query.{Collation, ExperienceSearchQuery}
use booking_availability_pla.Search.Experiences.{
  ExperienceSearchResult, compute_search, search_experiences,
}

module _ (num : Numeric) (calendar : Calendar) (collation : Collation) (tenant : ℕ)
    (query : ExperienceSearchQuery) (query_hash : ExperienceSearchQuery → String)
    (parse : String → ExperienceSearchResult) (stringify : ExperienceSearchResult → String) where
  -- A search that comes after the loop has emptied the cache for its tenant answers from the database as
  -- it is then, where the scan has ended and has reported every key of the tenant that is in the store.
  pub search_experiences-fresh :
      (rs : List ScanReply) (store : Store) (n now ttl_seconds : ℕ) (stored : Bool) (db : Db)
      → ends_scan rs ≡ true
      → All (λ e. is_reported tenant (scanned rs) e ≡ true) store
      → (after : Store) × (invalidate_scanned rs store n ≡ some (after, n + length (scanned rs)))
        × ((search_experiences num calendar collation now db tenant query query_hash parse stringify
              ttl_seconds stored after).0
            ≡ compute_search num calendar collation now db tenant query)
  unfolding search_experiences
  search_experiences-fresh rs store n now ttl_seconds stored db ended reported =
      let (after, done, missed) =
        invalidate_scanned-missed query_hash parse stringify rs store n now tenant query ended
          reported in
      (after, done, rw missed refl)

  -- A search that misses and is cached is repeated, whatever the database and the cache's answer to later
  -- writes, until its entry ends, where JSON gives back the result and never an empty text.
  pub search_experiences-repeat :
      (store : Store) (now later ttl_seconds : ℕ) (stored : Bool) (db db' : Db)
      → parse (stringify (compute_search num calendar collation now db tenant query))
        ≡ compute_search num calendar collation now db tenant query
      → same_text (stringify (compute_search num calendar collation now db tenant query)) "" ≡ false
      → later < now + ttl_seconds * 1000
      → get_cached_search query_hash parse stringify now tenant query store ≡ none
      → (search_experiences num calendar collation later db' tenant query query_hash parse stringify
          ttl_seconds stored
          (search_experiences num calendar collation now db tenant query query_hash parse stringify
            ttl_seconds true store).1).0
        ≡ compute_search num calendar collation now db tenant query
  unfolding search_experiences
  search_experiences-repeat store now later ttl_seconds stored db db' back full soon miss =
      rw miss (
        rw
          (get_cached_search-set_cached_search query_hash parse stringify now ttl_seconds later
            tenant query (compute_search num calendar collation now db tenant query) store back full
            soon)
          refl)
