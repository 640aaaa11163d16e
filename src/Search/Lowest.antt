-- ===== src/Search/Lowest.antt =====
-- The loop of Search.Prices finds, for each experience, the least total over its slots.
use booking_availability_pla.Shared.{
  ℕ, ℤ, pos, negsuc, ◌≡◌, refl, sym, ap, ◌∙◌, Bool, true, false, Option, none, some, List, [], ◌∷◌,
  arith, ◌==◌, if◌then◌else◌, keep, Bool-cases, inl, inr, ==_iff,
}
use booking_availability_pla.Model.{Experience, AvailabilitySlot}
use booking_availability_pla.Listing.Bookings.{leb_ℤ}
use booking_availability_pla.Search.Prices.{PriceMap, add_found, from_prices, set_price, is_lower}

abbrev pub lower : ℤ → Option ℤ → ℤ
lower a none = a
lower a (some b) = if leb_ℤ a b then a else b

-- The least value of a function over a list.
abbrev pub least : {A : Type 0} → (A → ℤ) → List A → Option ℤ
least f [] = none
least f (x ∷ xs) = some (lower (f x) (least f xs))

abbrev merge : Option ℤ → Option ℤ → Option ℤ
merge none o = o
merge (some a) o = some (lower a o)

leb_ℤ_total : (a b : ℤ) → leb_ℤ a b ≡ false → leb_ℤ b a ≡ true
leb_ℤ_total (pos a) (pos b) h = ground arith
leb_ℤ_total (pos a) (negsuc b) h = refl
leb_ℤ_total (negsuc a) (pos b) h = cc
leb_ℤ_total (negsuc a) (negsuc b) h = ground arith

leb_ℤ_trans : (a b c : ℤ) → leb_ℤ a b ≡ true → leb_ℤ b c ≡ true → leb_ℤ a c ≡ true
leb_ℤ_trans (pos a) (pos b) (pos c) h k = ground arith
leb_ℤ_trans (pos a) (pos b) (negsuc c) h k = cc
leb_ℤ_trans (pos a) (negsuc b) c h k = cc
leb_ℤ_trans (negsuc a) (pos b) (pos c) h k = refl
leb_ℤ_trans (negsuc a) (pos b) (negsuc c) h k = cc
leb_ℤ_trans (negsuc a) (negsuc b) (pos c) h k = refl
leb_ℤ_trans (negsuc a) (negsuc b) (negsuc c) h k = ground arith

leb_ℤ_refl : (a : ℤ) → leb_ℤ a a ≡ true
leb_ℤ_refl (pos a) = ground arith
leb_ℤ_refl (negsuc a) = ground arith

leb_ℤ_antisym : (a b : ℤ) → leb_ℤ a b ≡ true → leb_ℤ b a ≡ true → a ≡ b
leb_ℤ_antisym (pos a) (pos b) h k = ground arith
leb_ℤ_antisym (pos a) (negsuc b) h k = cc
leb_ℤ_antisym (negsuc a) (pos b) h k = cc
leb_ℤ_antisym (negsuc a) (negsuc b) h k = ground arith

lower_assoc : (a b c : ℤ) → lower (lower a (some b)) (some c) ≡ lower a (some (lower b (some c)))
lower_assoc a b c = elim (Bool-cases (leb_ℤ a b)) [
  | inl ab ↦ elim (Bool-cases (leb_ℤ b c)) [
    | inl bc ↦ rw (ab, bc) (rw (leb_ℤ_trans a b c ab bc, ab) refl)
    | inr cb ↦ rw (ab, cb) refl
  ]
  | inr ba ↦ elim (Bool-cases (leb_ℤ b c)) [
    | inl bc ↦ rw (ba, bc) (rw ba refl)
    | inr cb ↦ elim (Bool-cases (leb_ℤ a c)) [
      | inl ac ↦ cc (leb_ℤ_trans b a c (leb_ℤ_total a b ba) ac)
      | inr ca ↦ rw (ba, cb) (rw ca refl)
    ]
  ]
]

merge_assoc :
    (o : Option ℤ) (b : ℤ) (o' : Option ℤ)
    → merge (merge o (some b)) o' ≡ merge o (some (lower b o'))
merge_assoc none b o' = refl
merge_assoc (some a) b none = refl
merge_assoc (some a) b (some c) = ap some (lower_assoc a b c)

is_lower-merge : (o : Option ℤ) (p : ℤ) → is_lower p o ≡ true → some p ≡ merge o (some p)
is_lower-merge none p h = refl
is_lower-merge (some a) p h = elim (Bool-cases (leb_ℤ a p)) [ inl le ↦ cc | inr le ↦ rw le refl ]

is_lower-kept : (o : Option ℤ) (p : ℤ) → is_lower p o ≡ false → o ≡ merge o (some p)
is_lower-kept none p h = cc
is_lower-kept (some a) p h = elim (Bool-cases (leb_ℤ a p)) [ inl le ↦ rw le refl | inr le ↦ cc ]

-- The replacement of a price by a lower one.
replaced_at :
    (m : PriceMap) (id : ℕ) (p : ℤ)
    → (if is_lower p (m id) then set_price id p m else m) id ≡ merge (m id) (some p)
replaced_at m id p = elim (Bool-cases (is_lower p (m id))) [
  | inl h ↦ rw h (rw ((==_iff id id).1 refl) (is_lower-merge (m id) p h))
  | inr h ↦ rw h (is_lower-kept (m id) p h)
]

merge-none : (o : Option ℤ) → o ≡ merge o none
merge-none none = refl
merge-none (some a) = refl

module _ (find_experience : ℕ → Option Experience)
    (total_of : Experience → AvailabilitySlot → ℤ) where
  abbrev pub of_experience : ℕ → AvailabilitySlot → Bool
  of_experience id s = s.experience_id == id

  add_found-here :
      (s : AvailabilitySlot) (e : Experience) (m : PriceMap)
      → add_found find_experience total_of s (some e) m s.experience_id
        ≡ merge (m s.experience_id) (some (total_of e s))
  add_found-here s e m = replaced_at m s.experience_id (total_of e s)

  add_found-other :
      (s : AvailabilitySlot) (o : Option Experience) (m : PriceMap) (id : ℕ)
      → (s.experience_id == id) ≡ false
      → add_found find_experience total_of s o m id ≡ m id
  add_found-other s none m id h = refl
  add_found-other s (some e) m id h = ground arith

  pub from_prices-least :
      (id : ℕ) (e : Experience)
      → find_experience id ≡ some e
      → (slots : List AvailabilitySlot) (m : PriceMap)
      → from_prices find_experience total_of slots m id
        ≡ merge (m id) (least (total_of e) (keep (of_experience id) slots))
  unfolding from_prices
  from_prices-least id e found [] m = merge-none (m id)
  from_prices-least id e found (s ∷ ss) m = elim (Bool-cases (s.experience_id == id)) [
    | inl here ↦ rw here (
        from_prices-least id e found ss _
        ∙ ap (λ o. merge o (least (total_of e) (keep (of_experience id) ss)))
            (let same : s.experience_id ≡ id = (==_iff s.experience_id id).0 here in
              ap (λ o. add_found find_experience total_of s o m id)
                (ap find_experience same ∙ found)
              ∙ rw (sym same) (add_found-here s e m))
        ∙ merge_assoc (m id) (total_of e s) (least (total_of e) (keep (of_experience id) ss)))
    | inr other ↦ rw other (
        from_prices-least id e found ss _
        ∙ ap (λ o. merge o (least (total_of e) (keep (of_experience id) ss)))
            (add_found-other s (find_experience s.experience_id) m id other))
  ]
