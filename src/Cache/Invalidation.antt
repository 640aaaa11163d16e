-- ===== src/Cache/Invalidation.antt =====
-- `invalidateTenantAvailability` of src/lib/availability-cache.ts. What Redis replies to each `SCAN`, a
-- cursor and some keys, is an argument; the loop ends at the first reply whose cursor is 0.
use booking_availability_pla.Shared.{
  ℕ, String, ◌+◌, ◌≡◌, refl, Bool, true, false, not, Option, none, some, List, [], ◌∷◌, ◌++◌, arith,
  ◌==◌, find_first, keep, if◌then◌else◌, ap, sym, ◌∙◌, length, length-append, All, Bool-cases, inl,
  inr,
}
use booking_availability_pla.Cache.Store.{
  get_cached_search, detail_key, search_key, is_live_at, CacheKey, Entry, Store, matches_tenant,
  same_key, redis_del,
}

pub record ScanReply : Type 0 where
  pub cursor : ℕ
  pub keys : List CacheKey

-- `DEL` of several keys.
abbrev pub redis_del_all : List CacheKey → Store → Store
redis_del_all [] store = store
redis_del_all (k ∷ ks) store = redis_del_all ks (redis_del k store)

-- The body of the loop and its test; gives the store and `deletedKeys`, or nothing while Redis has yet
-- to reply.
unfoldable pub invalidate_scanned : List ScanReply → Store → ℕ → Option (Store × ℕ)
invalidate_scanned [] store deleted_keys = none
invalidate_scanned (r ∷ rs) store deleted_keys =
    let rest = invalidate_scanned rs (redis_del_all r.keys store) (deleted_keys + length r.keys) in
    if r.cursor == 0 then some (redis_del_all r.keys store, deleted_keys + length r.keys) else rest

abbrev pub includes_key : List CacheKey → CacheKey → Bool
includes_key [] k = false
includes_key (x ∷ xs) k = if same_key k x then true else includes_key xs k

-- The keys of a scan, up to the reply that ends it.
abbrev pub scanned : List ScanReply → List CacheKey
scanned [] = []
scanned (r ∷ rs) = if r.cursor == 0 then r.keys else r.keys ++ scanned rs

abbrev pub ends_scan : List ScanReply → Bool
ends_scan [] = false
ends_scan (r ∷ rs) = if r.cursor == 0 then true else ends_scan rs

redis_del_all-append :
    (ks js : List CacheKey) (store : Store)
    → redis_del_all (ks ++ js) store ≡ redis_del_all js (redis_del_all ks store)
redis_del_all-append [] js store = refl
redis_del_all-append (k ∷ ks) js store = redis_del_all-append ks js (redis_del k store)

module _ {A : Type 0} where
  keep-keep :
      (p q : A → Bool) (xs : List A)
      → keep p (keep q xs) ≡ keep (λ x. if q x then p x else false) xs
  keep-keep p q [] = refl
  keep-keep p q (x ∷ xs) = ground (arith, keep-keep p q xs)

  keep-true : (xs : List A) → keep (λ x. true) xs ≡ xs
  keep-true [] = refl
  keep-true (x ∷ xs) = ap (λ ys. x ∷ ys) (keep-true xs)

deleted_or_not : (b c : Bool) → (if not b then not c else false) ≡ not (if b then true else c)
deleted_or_not true c = refl
deleted_or_not false c = refl

-- Deleting keys keeps the entries of the other keys.
redis_del_all-keep :
    (ks : List CacheKey) (store : Store)
    → redis_del_all ks store ≡ keep (λ e. not (includes_key ks e.key)) store
redis_del_all-keep [] store = sym (keep-true store)
redis_del_all-keep (k ∷ ks) store =
    redis_del_all-keep ks (redis_del k store)
    ∙ keep-keep _ (λ (e : Entry). not (same_key e.key k)) store
    ∙ (λ i. keep (λ (e : Entry). deleted_or_not (same_key e.key k) (includes_key ks e.key) i) store)

invalidate_scanned-del :
    (rs : List ScanReply) (store : Store) (n : ℕ)
    → ends_scan rs ≡ true
    → invalidate_scanned rs store n
      ≡ some (redis_del_all (scanned rs) store, n + length (scanned rs))
unfolding invalidate_scanned
invalidate_scanned-del [] store n h = cc
invalidate_scanned-del (r ∷ rs) store n h = elim (Bool-cases (r.cursor == 0)) [
  | inl last ↦ rw last refl
  | inr more ↦
      let rest =
        invalidate_scanned-del rs (redis_del_all r.keys store) (n + length r.keys) (rw more at h) in
      rw more (
        rest ∙ (λ i.
          some (
            sym (redis_del_all-append r.keys (scanned rs) store) i,
            count n r.keys (scanned rs) i,
          )))
]
  where
    count : (n : ℕ) (ks js : List CacheKey) → n + length ks + length js ≡ n + length (ks ++ js)
    count n ks js = omega (arith, length-append ks js)

-- Once Redis ends the scan, the loop ends, and what is left is the store without the entries whose keys
-- the scan reported: every entry under one of these keys is gone and every other entry is as it was. The
-- count grows by the number of keys that were reported.
pub invalidate_scanned_lem :
    (rs : List ScanReply) (store : Store) (n : ℕ)
    → ends_scan rs ≡ true
    → invalidate_scanned rs store n
      ≡ some (keep (λ e. not (includes_key (scanned rs) e.key)) store, n + length (scanned rs))
invalidate_scanned_lem rs store n h =
    invalidate_scanned-del rs store n h
    ∙ ap (λ v. some (v, n + length (scanned rs))) (redis_del_all-keep (scanned rs) store)

-- Redis reports every key that is in the store throughout a scan: here, each key of the tenant.
abbrev pub is_reported : ℕ → List CacheKey → Entry → Bool
is_reported tenant keys e = if matches_tenant tenant e.key then includes_key keys e.key else true

live_is_of_tenant :
    (now tenant : ℕ) (h : String) (k : CacheKey)
    → same_key k (search_key tenant h) ≡ true
    → matches_tenant tenant k ≡ true
live_is_of_tenant now tenant h (search_key t g) e = ground arith
live_is_of_tenant now tenant h (detail_key t x g) e = cc

missed :
    (now tenant : ℕ) (h : String) (keys : List CacheKey) (store : Store)
    → All (λ e. is_reported tenant keys e ≡ true) store
    → find_first
        (is_live_at now (search_key tenant h))
        (keep (λ e. not (includes_key keys e.key)) store)
      ≡ none
missed now tenant h keys [] a = refl
missed now tenant h keys (e ∷ es) a =
    let rest = missed now tenant h keys es a.1 in
    ground (arith, live_is_of_tenant now tenant h e.key)

-- A search of the tenant that comes after the loop finds nothing in the cache, where the scan has ended
-- and has reported every key of the tenant that is in the store.
pub invalidate_scanned-missed :
    {Query A : Type 0} (query_hash : Query → String) (parse : String → A) (stringify : A → String)
    (rs : List ScanReply) (store : Store) (n now tenant : ℕ) (query : Query)
    → ends_scan rs ≡ true
    → All (λ e. is_reported tenant (scanned rs) e ≡ true) store
    → (after : Store) × (invalidate_scanned rs store n ≡ some (after, n + length (scanned rs)))
      × (get_cached_search query_hash parse stringify now tenant query after ≡ none)
unfolding get_cached_search
invalidate_scanned-missed query_hash parse stringify rs store n now tenant query h reported = (
  keep (λ e. not (includes_key (scanned rs) e.key)) store,
  invalidate_scanned_lem rs store n h,
  rw (missed now tenant (query_hash query) (scanned rs) store reported) refl,
)
