-- ===== src/Shared/Keys.antt =====
-- Lists whose rows have different keys, under filters, orders and stretches.
use Prim.Native.Nat.{ℕ, zero, suc}
use mathlib.Core.Path.{◌≡◌, refl, sym}
use mathlib.Core.Logic.{◌≢◌, inl, inr}
use mathlib.Core.Bool.{Bool, true, false}
use mathlib.Core.Option.{none, some}
use mathlib.Core.List.{List, [], ◌∷◌, ◌++◌, map}
use native.Mathlib.Omega.{arith}
use booking_availability_pla.Shared.Tests.{Bool-cases}
use booking_availability_pla.Shared.Lists.{All, keep, take, insert_with, sort_with}
use booking_availability_pla.Shared.Tables.{Unique, Absent, find_first, update_where}

module _ {A : Type 0} (key : A → ℕ) where
  Absent-keep : (k : ℕ) (p : A → Bool) (xs : List A) → Absent key k xs → Absent key k (keep p xs)
  Absent-keep k p [] h = tt
  Absent-keep k p (x ∷ xs) h = ground (arith, Absent-keep k p xs h.1)

  pub Unique-keep : (p : A → Bool) (xs : List A) → Unique key xs → Unique key (keep p xs)
  Unique-keep p [] u = tt
  Unique-keep p (x ∷ xs) u = elim (Bool-cases (p x)) [
    | inl t ↦ rw t (Absent-keep (key x) p xs u.0, Unique-keep p xs u.1)
    | inr f ↦ rw f (Unique-keep p xs u.1)
  ]

  Absent-take : (k n : ℕ) (xs : List A) → Absent key k xs → Absent key k (take n xs)
  Absent-take k zero xs h = tt
  Absent-take k (suc n) [] h = tt
  Absent-take k (suc n) (x ∷ xs) h = (h.0, Absent-take k n xs h.1)

  pub Unique-take : (n : ℕ) (xs : List A) → Unique key xs → Unique key (take n xs)
  Unique-take zero xs u = tt
  Unique-take (suc n) [] u = tt
  Unique-take (suc n) (x ∷ xs) u = (Absent-take (key x) n xs u.0, Unique-take n xs u.1)

  module _ (le : A → A → Bool) where
    Absent-insert_with :
        (k : ℕ) (x : A) (xs : List A)
        → key x ≢ k
        → Absent key k xs
        → Absent key k (insert_with le x xs)
    Absent-insert_with k x [] d h = (d, tt)
    Absent-insert_with k x (y ∷ ys) d h = elim (Bool-cases (le x y)) [
      | inl t ↦ rw t (d, h)
      | inr f ↦ rw f (h.0, Absent-insert_with k x ys d h.1)
    ]

    Unique-insert_with :
        (x : A) (xs : List A)
        → Absent key (key x) xs
        → Unique key xs
        → Unique key (insert_with le x xs)
    Unique-insert_with x [] h u = (tt, tt)
    Unique-insert_with x (y ∷ ys) h u = elim (Bool-cases (le x y)) [
      | inl t ↦ rw t (h, u)
      | inr f ↦
          rw f (
            Absent-insert_with (key y) x ys (λ e. h.0 (sym e)) u.0,
            Unique-insert_with x ys h.1 u.1,
          )
    ]

    Absent-sort_with : (k : ℕ) (xs : List A) → Absent key k xs → Absent key k (sort_with le xs)
    Absent-sort_with k [] h = tt
    Absent-sort_with k (x ∷ xs) h =
        Absent-insert_with k x (sort_with le xs) h.0 (Absent-sort_with k xs h.1)

    pub Unique-sort_with : (xs : List A) → Unique key xs → Unique key (sort_with le xs)
    Unique-sort_with [] u = tt
    Unique-sort_with (x ∷ xs) u =
        Unique-insert_with x (sort_with le xs) (Absent-sort_with (key x) xs u.0)
          (Unique-sort_with xs u.1)

  Absent-map :
      {B : Type 0} (f : B → A) (k : ℕ) (xs : List B)
      → Absent (λ x. key (f x)) k xs
      → Absent key k (map f xs)
  Absent-map f k [] h = tt
  Absent-map f k (x ∷ xs) h = (h.0, Absent-map f k xs h.1)

  pub Unique-map :
      {B : Type 0} (f : B → A) (xs : List B) → Unique (λ x. key (f x)) xs → Unique key (map f xs)
  Unique-map f [] u = tt
  Unique-map f (x ∷ xs) u = (Absent-map f (key (f x)) xs u.0, Unique-map f xs u.1)

-- An update of rows that a filter drops, before and after, does not show behind the filter.
pub keep-update :
    {A : Type 0} (q p : A → Bool) (f : A → A) (xs : List A)
    → All (λ x. p x ≡ true → (q x ≡ false) × (q (f x) ≡ false)) xs
    → keep q (update_where p f xs) ≡ keep q xs
keep-update q p f [] h = refl
keep-update q p f (x ∷ xs) h =
    let rest = keep-update q p f xs h.1 in
    elim (Bool-cases (p x)) [
      | inl t ↦ let (before, after) = h.0 t in rw (t, before, after) rest
      | inr u ↦ rw u (ground arith)
    ]

pub keep-append_dropped :
    {A : Type 0} (q : A → Bool) (xs : List A) (x : A)
    → q x ≡ false
    → keep q (xs ++ x ∷ []) ≡ keep q xs
keep-append_dropped q [] x h = rw h refl
keep-append_dropped q (y ∷ ys) x h = let rest = keep-append_dropped q ys x h in ground arith

pub All-every : {A : Type 0} (P : A → Type 0) (xs : List A) → ((x : A) → P x) → All P xs
All-every P [] h = tt
All-every P (x ∷ xs) h = (h x, All-every P xs h)

module _ {A : Type 0} (p : A → Bool) where
  -- A new row that a query is the first to hit.
  pub find_first-new :
      (xs : List A) (y : A)
      → p y ≡ true
      → find_first p xs ≡ none
      → find_first p (xs ++ y ∷ []) ≡ some y
  find_first-new [] y h e = rw h
  find_first-new (x ∷ xs) y h e = ground (arith, find_first-new xs y h)
