-- ===== src/Shared/Keyed.antt =====
-- Tables with a key, such as a primary key: what queries and updates do where no two rows share one.
use Prim.Native.Nat.{ℕ, ◌+◌}
use mathlib.Core.Path.{◌≡◌, refl, sym, ap, subst, ◌∙◌}
use mathlib.Core.Logic.{◌≢◌, inl, inr}
use mathlib.Core.Bool.{Bool, true}
use mathlib.Core.Option.{none, some}
use mathlib.Core.List.{List, [], ◌∷◌, ◌++◌}
use native.Mathlib.Omega.{arith}
use booking_availability_pla.Shared.Tests.{◌==◌, ==_iff, Bool-cases}
use booking_availability_pla.Shared.Lists.{All, All-pair, All-map_weaken}
use booking_availability_pla.Shared.Tables.{
  find_first, update_where, sum_by, Absent, Unique, find_first_sound, update_where-none,
}

-- Tables with a key, such as a primary key, and an update whose test fixes the key.
module _ {A : Type 0} (key : A → ℕ) where
  pub Absent-find_first :
      (k : ℕ) (p : A → Bool) (xs : List A) (x : A)
      → Absent key k xs
      → find_first p xs ≡ some x
      → key x ≢ k
  Absent-find_first k p [] x h e = cc
  Absent-find_first k p (y ∷ ys) x h e = elim (Bool-cases (p y)) [
    | inl t ↦ subst (λ z. key z ≢ k) (let same : y ≡ x = ground arith in same) h.0
    | inr f ↦ Absent-find_first k p ys x h.1 (rw f at e)
  ]

  pub Absent-update :
      (k : ℕ) (p : A → Bool) (f : A → A) (xs : List A)
      → ((x : A) → key (f x) ≡ key x)
      → Absent key k xs
      → Absent key k (update_where p f xs)
  Absent-update k p f [] same h = tt
  Absent-update k p f (x ∷ xs) same h = ground (arith, same x, Absent-update k p f xs same h.1)

  pub Unique-update :
      (p : A → Bool) (f : A → A) (xs : List A)
      → ((x : A) → key (f x) ≡ key x)
      → Unique key xs
      → Unique key (update_where p f xs)
  Unique-update p f [] same h = tt
  Unique-update p f (x ∷ xs) same h = elim (Bool-cases (p x)) [
    | inl t ↦ rw t (
      subst (λ k. Absent key k (update_where p f xs)) (sym (same x))
          (Absent-update (key x) p f xs same h.0),
      Unique-update p f xs same h.1,
    )
    | inr u ↦ rw u (Absent-update (key x) p f xs same h.0, Unique-update p f xs same h.1)
  ]

  pub Absent-append :
      (k : ℕ) (xs ys : List A) → Absent key k xs → Absent key k ys → Absent key k (xs ++ ys)
  Absent-append k [] ys h g = g
  Absent-append k (x ∷ xs) ys h g = (h.0, Absent-append k xs ys h.1 g)

  pub Unique-append_new :
      (xs : List A) (y : A) → Unique key xs → Absent key (key y) xs → Unique key (xs ++ y ∷ [])
  Unique-append_new [] y h g = (tt, tt)
  Unique-append_new (x ∷ xs) y h g = (
    Absent-append (key x) xs (y ∷ []) h.0 ((λ e. g.0 (sym e)), tt),
    Unique-append_new xs y h.1 g.1,
  )

  -- What a query for the key does not find is absent.
  pub Absent-of_none :
      (k : ℕ) (p : A → Bool) (xs : List A)
      → ((x : A) → key x ≡ k → p x ≡ true)
      → find_first p xs ≡ none
      → Absent key k xs
  Absent-of_none k p [] hits e = tt
  Absent-of_none k p (x ∷ xs) hits e = elim (Bool-cases (p x)) [
    | inl t ↦ cc (rw t at e)
    | inr f ↦ ((λ same. cc (f, hits x same)), Absent-of_none k p xs hits (rw f at e))
  ]

  pub All-of_Absent : (k : ℕ) (xs : List A) → Absent key k xs → All (λ x. key x ≢ k) xs
  All-of_Absent k [] h = tt
  All-of_Absent k (x ∷ xs) h = (h.0, All-of_Absent k xs h.1)

  -- The row that a query returns is also the row under its key.
  pub find_first-key :
      (p : A → Bool) (xs : List A) (x : A)
      → Unique key xs
      → find_first p xs ≡ some x
      → find_first (λ y. key y == key x) xs ≡ some x
  find_first-key p [] x h e = cc
  find_first-key p (y ∷ ys) x h e = elim (Bool-cases (p y)) [
    | inl t ↦
        let e' : y ≡ x = ground arith in rw ((==_iff (key y) (key x)).1 (ap key e')) (ap some e')
    | inr f ↦
        let e' : find_first p ys ≡ some x = rw f at e in
        let differ : key x ≢ key y = Absent-find_first (key y) p ys x h.0 e' in
        let rest = find_first-key p ys x h.1 e' in ground arith
  ]

  module _ (k : ℕ) (p : A → Bool) (fixes : (x : A) → p x ≡ true → key x ≡ k) where
    pub find_first-Absent : (xs : List A) → Absent key k xs → find_first p xs ≡ none
    find_first-Absent [] h = refl
    find_first-Absent (x ∷ xs) h = ground (arith, fixes x, find_first-Absent xs h.1)

    pub All-update-Absent {κ μ} :
        {P : A → Type κ} {Q : A → Type μ} (f : A → A) (xs : List A)
        → ((x : A) → key x ≢ k → P x → Q x)
        → Absent key k xs
        → All P xs
        → All Q (update_where p f xs)
    All-update-Absent f [] other a h = tt
    All-update-Absent f (x ∷ xs) other a h = elim (Bool-cases (p x)) [
      | inl t ↦ absurd (a.0 (fixes x t))
      | inr u ↦ rw u (other x a.0 h.0, All-update-Absent f xs other a.1 h.1)
    ]

    -- An update under a key changes the one row that has it.
    pub All-update-Unique {κ μ} :
        {P : A → Type κ} {Q : A → Type μ} (f : A → A) (xs : List A) (y : A)
        → Unique key xs
        → find_first p xs ≡ some y
        → (P y → Q (f y))
        → ((x : A) → key x ≢ k → P x → Q x)
        → All P xs
        → All Q (update_where p f xs)
    All-update-Unique f [] y u e hit other h = cc
    All-update-Unique {P = P} {Q = Q} f (x ∷ xs) y u e hit other h = elim (Bool-cases (p x)) [
      | inl t ↦
          let same : x ≡ y = ground arith in
          let absent : Absent key k xs = subst (λ j. Absent key j xs) (fixes x t) u.0 in
          rw t
            (subst (λ z. P z → Q (f z)) (sym same) hit h.0, All-update-Absent f xs other absent h.1)
      | inr v ↦
          let e' : find_first p xs ≡ some y = rw v at e in
          let differ : key y ≢ key x = Absent-find_first (key x) p xs y u.0 e' in
          let ky : key y ≡ k = fixes y (find_first_sound p xs y e') in
          rw v (
            other x (λ same. differ (ky ∙ sym same)) h.0,
            All-update-Unique f xs y u.1 e' hit other h.1,
          )
    ]

    pub sum_by-update-Absent :
        (w : A → ℕ) (f : A → A) (xs : List A)
        → Absent key k xs
        → sum_by w (update_where p f xs) ≡ sum_by w xs
    sum_by-update-Absent w f xs a =
        ap (sum_by w) (update_where-none p f xs (find_first-Absent xs a)).0

    -- A sum over the rows changes by what the one updated row contributes.
    pub sum_by-update :
        (w : A → ℕ) (f : A → A) (xs : List A) (y : A)
        → Unique key xs
        → find_first p xs ≡ some y
        → sum_by w (update_where p f xs) + w y ≡ sum_by w xs + w (f y)
    sum_by-update w f [] y u e = cc
    sum_by-update w f (x ∷ xs) y u e = elim (Bool-cases (p x)) [
      | inl t ↦
          let same : x ≡ y = ground arith in
          let absent : Absent key k xs = subst (λ j. Absent key j xs) (fixes x t) u.0 in
          let rest = sum_by-update-Absent w f xs absent in rw (← same) (rw t (omega arith))
      | inr v ↦ let rest = sum_by-update w f xs y u.1 (rw v at e) in rw v (omega arith)
    ]

skip_other :
    {A : Type 0} (key : A → ℕ) (x : A) (xs : List A) (y : A)
    → key y ≢ key x
    → find_first (λ z. key z == key y) xs ≡ some y
    → find_first (λ z. key z == key y) (x ∷ xs) ≡ some y
skip_other key x xs y differ e = ground (arith, differ)

-- A lookup by a key that no two rows share finds the row.
pub Unique-find_first :
    {A : Type 0} (key : A → ℕ) (xs : List A)
    → Unique key xs
    → All (λ x. find_first (λ y. key y == key x) xs ≡ some x) xs
Unique-find_first key [] u = tt
Unique-find_first key (x ∷ xs) u = (
  rw ((==_iff (key x) (key x)).1 refl),
  All-map_weaken _ (λ y h. skip_other key x xs y h.0 h.1) xs
      (All-pair _ _ xs (All-of_Absent key (key x) xs u.0) (Unique-find_first key xs u.1)),
)
