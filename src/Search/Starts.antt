-- ===== src/Search/Starts.antt =====
-- The first start of an experience's slots, as the grouped query of src/services/experience.service.ts asks
-- for it with MIN.
use booking_availability_pla.Shared.{
  ℕ, ◌≤◌, ◌≡◌, refl, sym, ap, subst, ◌∙◌, none, some, List, [], ◌∷◌, arith, leb, Option-cases,
  Bool-cases, inl, inr, All, All-map_weaken, some-injective,
}
use mathlib.Core.List.{Mem, mem-cons_self, mem-cons_of_mem}
use booking_availability_pla.Model.{AvailabilitySlot}
use booking_availability_pla.Search.Rows.{earlier, earliest}

-- A time that is the start of one of the slots, and not after the start of any.
abbrev pub IsFirstStart : ℕ → List AvailabilitySlot → Type 0
IsFirstStart at slots =
    All (λ (s : AvailabilitySlot). at ≤ s.starts_at) slots
    × ((s : AvailabilitySlot) × Mem s slots × (s.starts_at ≡ at))

alone :
    (s : AvailabilitySlot) (ss : List AvailabilitySlot)
    → earliest ss ≡ none
    → IsFirstStart s.starts_at (s ∷ ss)
alone s [] e = ((omega arith, tt), (s, mem-cons_self, refl))
alone s (t ∷ ts) e = cc

first_of :
    (s : AvailabilitySlot) (ss : List AvailabilitySlot) (u : ℕ)
    → IsFirstStart u ss
    → IsFirstStart (earlier s.starts_at (some u)) (s ∷ ss)
first_of s ss u (before, (t, member, same)) = elim (Bool-cases (leb s.starts_at u)) [
  | inl first ↦
      let le : s.starts_at ≤ u = ground arith in
      let is : earlier s.starts_at (some u) ≡ s.starts_at = rw first refl in
      subst (λ (n : ℕ). IsFirstStart n (s ∷ ss)) (sym is)
        (
          (
            omega arith,
            All-map_weaken _ (λ (x : AvailabilitySlot) (h : u ≤ x.starts_at). omega arith) ss
                before,
          ),
          (s, mem-cons_self, refl),
        )
  | inr later ↦
      let le : u ≤ s.starts_at = ground arith in
      let is : earlier s.starts_at (some u) ≡ u = rw later refl in
      subst (λ (n : ℕ). IsFirstStart n (s ∷ ss)) (sym is)
        ((le, before), (t, mem-cons_of_mem s member, same))
]

pub earliest-IsFirstStart :
    (ss : List AvailabilitySlot) (at : ℕ) → earliest ss ≡ some at → IsFirstStart at ss
earliest-IsFirstStart [] at e = cc
earliest-IsFirstStart (s ∷ ss) at e =
    let is : earlier s.starts_at (earliest ss) ≡ at = some-injective _ at e in
    elim (Option-cases (earliest ss)) [
      | inl empty ↦
          subst (λ (n : ℕ). IsFirstStart n (s ∷ ss)) (sym (ap (earlier s.starts_at) empty) ∙ is)
            (alone s ss empty)
      | inr (u, rest) ↦
          subst (λ (n : ℕ). IsFirstStart n (s ∷ ss)) (sym (ap (earlier s.starts_at) rest) ∙ is)
            (first_of s ss u (earliest-IsFirstStart ss u rest))
    ]
