-- ===== src/Cache/Store.antt =====
-- Keys, reads and writes of src/lib/availability-cache.ts. Redis is a list of entries with the time at
-- which each ends. The hash of a query and JSON belong to libraries: they are parameters.
use booking_availability_pla.Shared.{
  ℕ, ◌+◌, ◌*◌, ◌<◌, ◌≡◌, refl, String, Bool, true, false, not, ◌&&◌, Option, none, some, List, ◌∷◌,
  arith, ltb, ◌==◌, same_text, find_first, keep, if◌then◌else◌, eq_iff,
}

-- `avail:{tenantId}:search:{hash}` and `avail:{tenantId}:detail:{experienceId}:{hash}`. No identifier
-- has a colon, so two such texts are the same only part by part.
pub data CacheKey : Type 0 where
  search_key : (tenant_id : ℕ) → String → CacheKey
  detail_key : (tenant_id experience_id : ℕ) → String → CacheKey

-- A key matches the pattern `avail:{tenantId}:*`.
abbrev pub matches_tenant : ℕ → CacheKey → Bool
matches_tenant tenant_id (search_key t h) = t == tenant_id
matches_tenant tenant_id (detail_key t e h) = t == tenant_id

abbrev pub same_key : CacheKey → CacheKey → Bool
same_key (search_key t h) (search_key t' h') = t == t' && same_text h h'
same_key (detail_key t e h) (detail_key t' e' h') = t == t' && e == e' && same_text h h'
same_key _ _ = false

pub record Entry : Type 0 where
  pub key : CacheKey
  pub value : String
  pub ends_at : ℕ

abbrev pub Store : Type 0
Store = List Entry

-- `GET`, `SET … EX`, and `DEL` of one key.
abbrev pub is_live_at : ℕ → CacheKey → Entry → Bool
is_live_at now key e = same_key e.key key && ltb now e.ends_at

abbrev pub redis_get : ℕ → CacheKey → Store → Option Entry
redis_get now key store = find_first (is_live_at now key) store

abbrev pub redis_del : CacheKey → Store → Store
redis_del key store = keep (λ e. not (same_key e.key key)) store

abbrev pub redis_set : ℕ → ℕ → CacheKey → String → Store → Store
redis_set now ttl_seconds key value store =
    record { key = key; value = value; ends_at = now + ttl_seconds * 1000 } ∷ redis_del key store

module _ {Query A : Type 0} (query_hash : Query → String) (parse : String → A)
    (stringify : A → String) where
  -- `if (!raw) return null`
  abbrev pub parsed : Option Entry → Option A
  parsed none = none
  parsed (some e) = if same_text e.value "" then none else some (parse e.value)

  unfoldable pub get_cached_search : ℕ → ℕ → Query → Store → Option A
  get_cached_search now tenant_id query store =
      parsed (redis_get now (search_key tenant_id (query_hash query)) store)

  unfoldable pub set_cached_search : ℕ → ℕ → ℕ → Query → A → Store → Store
  set_cached_search now ttl_seconds tenant_id query result store =
      redis_set now ttl_seconds (search_key tenant_id (query_hash query)) (stringify result) store

  unfoldable pub get_cached_detail : ℕ → ℕ → ℕ → Query → Store → Option A
  get_cached_detail now tenant_id experience_id query store =
      parsed (redis_get now (detail_key tenant_id experience_id (query_hash query)) store)

  unfoldable pub set_cached_detail : ℕ → ℕ → ℕ → ℕ → Query → A → Store → Store
  set_cached_detail now ttl_seconds tenant_id experience_id query result store =
      redis_set now ttl_seconds (detail_key tenant_id experience_id (query_hash query))
        (stringify result) store

  ==_refl : (n : ℕ) → (n == n) ≡ true
  ==_refl n = ground arith

  same_text_refl : (t : String) → same_text t t ≡ true
  same_text_refl t = (eq_iff t t).1 refl

  -- What a search was cached with is read back until the entry ends, where JSON gives back what it was
  -- given and never an empty text.
  pub get_cached_search-set_cached_search :
      (now ttl_seconds later tenant : ℕ) (query : Query) (result : A) (store : Store)
      → parse (stringify result) ≡ result
      → same_text (stringify result) "" ≡ false
      → later < now + ttl_seconds * 1000
      → get_cached_search later tenant query
          (set_cached_search now ttl_seconds tenant query result store)
        ≡ some result
  unfolding get_cached_search set_cached_search
  get_cached_search-set_cached_search now ttl_seconds later tenant query result store back full
        soon =
      let live : ltb later (now + ttl_seconds * 1000) ≡ true = ground arith in
      rw (==_refl tenant, same_text_refl (query_hash query), live, full, back) refl
