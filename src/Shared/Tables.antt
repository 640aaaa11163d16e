-- ===== src/Shared/Tables.antt =====
-- Database tables as lists of rows in insertion order, and the queries that the services make: a
-- lookup of the first fitting row, an update of every fitting row with its count, an insertion.
use Prim.Native.Nat.{ℕ, ◌+◌, ◌<◌}
use mathlib.Core.Path.{◌≡◌, refl, subst}
use mathlib.Core.Logic.{◌≢◌, inl, inr}
use mathlib.Core.Bool.{Bool, true, false}
use mathlib.Core.Option.{Option, none, some}
use mathlib.Core.List.{List, [], ◌∷◌, ◌++◌}
use native.Mathlib.Omega.{arith}
use booking_availability_pla.Shared.Tests.{if◌then◌else◌, Bool-cases}
use booking_availability_pla.Shared.Lists.{All}

module _ {A : Type 0} where
  -- `findFirst`, `findUnique`
  abbrev pub find_first : (A → Bool) → List A → Option A
  find_first p [] = none
  find_first p (x ∷ xs) = if p x then some x else find_first p xs

  -- `UPDATE … SET … WHERE …`, `update`, `updateMany`
  abbrev pub update_where : (A → Bool) → (A → A) → List A → List A
  update_where p f [] = []
  update_where p f (x ∷ xs) = (if p x then f x else x) ∷ update_where p f xs

  -- The number of rows that an update touches.
  abbrev pub count_where : (A → Bool) → List A → ℕ
  count_where p [] = 0
  count_where p (x ∷ xs) = (if p x then 1 else 0) + count_where p xs

  abbrev pub sum_by : (A → ℕ) → List A → ℕ
  sum_by w [] = 0
  sum_by w (x ∷ xs) = w x + sum_by w xs

-- No row has the key, and no two rows share one.
abbrev pub Absent : {A : Type 0} → (A → ℕ) → ℕ → List A → Type 0
Absent key k [] = Unit
Absent key k (x ∷ xs) = (key x ≢ k) × Absent key k xs

abbrev pub Unique : {A : Type 0} → (A → ℕ) → List A → Type 0
Unique key [] = Unit
Unique key (x ∷ xs) = Absent key (key x) xs × Unique key xs

module _ {A : Type 0} where
  pub All-update {κ μ} :
      {P : A → Type κ} {Q : A → Type μ} (p : A → Bool) (f : A → A) (xs : List A)
      → ((x : A) → P x → Q (f x) × Q x)
      → All P xs
      → All Q (update_where p f xs)
  All-update p f [] step h = tt
  All-update p f (x ∷ xs) step h = elim (Bool-cases (p x)) [
    | inl t ↦ rw t ((step x h.0).0, All-update p f xs step h.1)
    | inr u ↦ rw u ((step x h.0).1, All-update p f xs step h.1)
  ]

  pub find_first_sound :
      (p : A → Bool) (xs : List A) (x : A) → find_first p xs ≡ some x → p x ≡ true
  find_first_sound p [] x e = cc
  find_first_sound p (y ∷ ys) x e = ground (arith, find_first_sound p ys x)

  pub All-find_first {κ} :
      (P : A → Type κ) (p : A → Bool) (xs : List A) (x : A)
      → All P xs
      → find_first p xs ≡ some x
      → P x
  All-find_first P p [] x h e = cc
  All-find_first P p (y ∷ ys) x h e = elim (Bool-cases (p y)) [
    | inl t ↦ subst P (let same : y ≡ x = ground arith in same) h.0
    | inr f ↦ All-find_first P p ys x h.1 (rw f at e)
  ]

  pub update_where-none :
      (p : A → Bool) (f : A → A) (xs : List A)
      → find_first p xs ≡ none
      → (update_where p f xs ≡ xs) × (count_where p xs ≡ 0)
  update_where-none p f [] e = (refl, refl)
  update_where-none p f (x ∷ xs) e = elim (Bool-cases (p x)) [
    | inl t ↦ cc (rw t at e)
    | inr u ↦ let (same, zero_count) = update_where-none p f xs (rw u at e) in rw u (ground arith)
  ]

  pub count_where_pos :
      (p : A → Bool) (xs : List A) (x : A) → find_first p xs ≡ some x → 0 < count_where p xs
  count_where_pos p [] x e = cc
  count_where_pos p (y ∷ ys) x e = ground (arith, count_where_pos p ys x)

module _ {A : Type 0} (p : A → Bool) where
  pub find_first-append :
      (xs ys : List A) (x : A) → find_first p xs ≡ some x → find_first p (xs ++ ys) ≡ some x
  find_first-append [] ys x e = cc
  find_first-append (y ∷ xs) ys x e = ground (arith, find_first-append xs ys x)

  -- A query whose test an update leaves alone finds the row that it found, updated.
  pub find_first-update :
      (q : A → Bool) (f : A → A) (xs : List A) (x : A)
      → ((y : A) → p (f y) ≡ p y)
      → find_first p xs ≡ some x
      → find_first p (update_where q f xs) ≡ some (if q x then f x else x)
  find_first-update q f [] x same e = cc
  find_first-update q f (y ∷ ys) x same e = elim (Bool-cases (p y)) [
    | inl t ↦
        let here : y ≡ x = ground arith in
        subst (λ z. find_first p (update_where q f (y ∷ ys)) ≡ some (if q z then f z else z)) here
          (ground (arith, same y))
    | inr u ↦ let rest = find_first-update q f ys x same (rw u at e) in ground (arith, same y)
  ]

  -- An update of rows that a query does not ask for, before or after, does not change its answer.
  pub find_first-update_other :
      (q : A → Bool) (f : A → A) (xs : List A)
      → ((y : A) → q y ≡ true → p y ≡ false)
      → ((y : A) → q y ≡ true → p (f y) ≡ false)
      → find_first p (update_where q f xs) ≡ find_first p xs
  find_first-update_other q f [] before after = refl
  find_first-update_other q f (y ∷ ys) before after =
      let rest = find_first-update_other q f ys before after in
      elim (Bool-cases (q y)) [
        | inl t ↦ rw (t, before y t, after y t) rest
        | inr u ↦ rw u (ground arith)
      ]

pub sum_by-append :
    {A : Type 0} (w : A → ℕ) (xs ys : List A) → sum_by w (xs ++ ys) ≡ sum_by w xs + sum_by w ys
sum_by-append w [] ys = omega arith
sum_by-append w (x ∷ xs) ys = omega (arith, sum_by-append w xs ys)

-- A query that asks for more finds the same row, if the row has what it asks for.
pub find_first-stronger :
    {A : Type 0} (p q : A → Bool) (xs : List A) (x : A)
    → ((y : A) → p y ≡ true → q y ≡ true)
    → p x ≡ true
    → find_first q xs ≡ some x
    → find_first p xs ≡ some x
find_first-stronger p q [] x h t e = cc
find_first-stronger p q (y ∷ ys) x h t e =
    let rest = find_first-stronger p q ys x h t in ground (arith, h y)
