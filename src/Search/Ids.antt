-- ===== src/Search/Ids.antt =====
-- Lemmas on the lists of ids that the queries of src/services/experience.service.ts pass on (`id IN (…)`).
use booking_availability_pla.Shared.{
  ℕ, ◌≡◌, refl, ap, ◌∙◌, Bool, true, false, some, List, [], ◌∷◌, map, arith, ◌==◌, ==_iff,
  Bool-cases, inl, inr, if◌then◌else◌, keep, find_first, All, All-map_weaken, some-injective,
}
use booking_availability_pla.Search.Rows.{includes_id}

module _ {A : Type 0} (key : A → ℕ) where
  -- A list of ids holds the id of each row that it was read off.
  pub includes_id_self : (xs : List A) → All (λ x. includes_id (map key xs) (key x) ≡ true) xs
  includes_id_self [] = tt
  includes_id_self (x ∷ xs) = (
    rw ((==_iff (key x) (key x)).1 refl) refl,
    All-map_weaken _ (λ y h. ground (arith, h)) xs (includes_id_self xs),
  )

  -- An id of the list is the id of a row, and the row has what all have.
  pub includes_id-All :
      (P : A → Type 0) (xs : List A) (id : ℕ)
      → All P xs
      → includes_id (map key xs) id ≡ true
      → (x : A) × P x × (key x ≡ id)
  includes_id-All P [] id h i = cc
  includes_id-All P (x ∷ xs) id h i = elim (Bool-cases (key x == id)) [
    | inl here ↦ (x, h.0, (==_iff (key x) id).0 here)
    | inr other ↦ includes_id-All P xs id h.1 (rw other at i)
  ]

-- A row that passes a filter is found among those that pass it, as it was found before.
pub find_first-keep :
    {A : Type 0} (p q : A → Bool) (xs : List A) (x : A)
    → find_first q xs ≡ some x
    → p x ≡ true
    → find_first q (keep p xs) ≡ some x
find_first-keep p q [] x e t = cc
find_first-keep p q (y ∷ ys) x e t = elim (Bool-cases (q y)) [
  | inl here ↦
      let same : y ≡ x = some-injective y x (rw here at e) in
      rw (ap p same ∙ t) (rw here (ap some same))
  | inr other ↦ let rest = find_first-keep p q ys x (rw other at e) t in ground arith
]

-- Two filters in turn are one.
pub keep-keep :
    {A : Type 0} (p q r : A → Bool) (xs : List A)
    → ((x : A) → (if q x then p x else false) ≡ r x)
    → keep p (keep q xs) ≡ keep r xs
keep-keep p q r [] h = refl
keep-keep p q r (x ∷ xs) h = let rest = keep-keep p q r xs h in ground (arith, h x)
