-- ===== src/Pricing/Rules.antt =====
-- Which rules of src/services/pricing.service.ts leave an adjustment.
use mathlib.Core.List.{map-append, append_assoc, append-nil}
use booking_availability_pla.Shared.{
  ℕ, ℤ, ◌≡◌, ap, ◌∙◌, Option, none, some, List, [], ◌∷◌, ◌++◌, map, arith, ltb, leb, ltb_ℕ,
  if◌then◌else◌, not, Bool, String, true, false,
}
use booking_availability_pla.Model.{
  Decimal, RuleConfig, PricingRuleType, group_size, advance_booking, seasonal,
}
use booking_availability_pla.Pricing.Numbers.{Numeric}
use booking_availability_pla.Pricing.Configs.{
  parse_group_size, parse_advance_booking, parse_seasonal, GroupSizeConfig, AdvanceBookingConfig,
  SeasonalConfig,
}
use booking_availability_pla.Pricing.Preview.{
  PricingRuleConfig, PricingAdjustment, days_until, includes, Running, apply_by_type, apply_rules,
  calculate_pricing_preview, discount, surcharge, apply_group_size, apply_advance_booking,
  apply_seasonal,
}

-- A rate in force: the kind of rule and its percentage.
abbrev pub Rate : Type 0
Rate = PricingRuleType × Decimal

abbrev pub when : {A : Type 0} → Bool → A → Option A
when b a = if b then some a else none

-- The rate that a rule sets for a party and a slot, read off its config.
abbrev pub group_size_rate : ℕ → Option GroupSizeConfig → Option Rate
group_size_rate party none = none
group_size_rate party (some c) = when (leb c.min_party_size party) (group_size, c.discount_percent)

abbrev pub advance_booking_rate : ℕ → Option ℕ → Option AdvanceBookingConfig → Option Rate
advance_booking_rate now at none = none
advance_booking_rate now none (some c) = none
advance_booking_rate now (some t) (some c) =
    when (not (ltb_ℕ (days_until t now) c.days_in_advance)) (advance_booking, c.discount_percent)

abbrev pub seasonal_rate : (ℕ → ℕ) → Option ℕ → Option SeasonalConfig → Option Rate
seasonal_rate month at none = none
seasonal_rate month none (some c) = none
seasonal_rate month (some t) (some c) =
    when (includes c.months (month t)) (seasonal, c.surcharge_percent)

abbrev pub rate_by_type : (ℕ → ℕ) → ℕ → ℕ → Option ℕ → PricingRuleType → RuleConfig → Option Rate
rate_by_type month now party at group_size config = group_size_rate party (parse_group_size config)
rate_by_type month now party at advance_booking config =
    advance_booking_rate now at (parse_advance_booking config)
rate_by_type month now party at seasonal config = seasonal_rate month at (parse_seasonal config)

abbrev pub cons? : {A : Type 0} → Option A → List A → List A
cons? none xs = xs
cons? (some x) xs = x ∷ xs

abbrev pub rates : (ℕ → ℕ) → ℕ → ℕ → Option ℕ → List PricingRuleConfig → List Rate
rates month now party at [] = []
rates month now party at (r ∷ rs) =
    cons? (rate_by_type month now party at r.rule_type r.config) (rates month now party at rs)

abbrev pub rate_of : PricingAdjustment → Rate
rate_of a = (a.rule_type, a.percent)

append_cons? :
    {A : Type 0} (xs ys : List A) (o : Option A) → (xs ++ cons? o []) ++ ys ≡ xs ++ cons? o ys
append_cons? xs ys none = simp append-nil
append_cons? xs ys (some x) = append_assoc xs (x ∷ []) ys

leb-eq-not : (a b : ℕ) → leb a b ≡ not (ltb b a)
leb-eq-not a b = ground arith

module _ (num : Numeric) where
  abbrev rates_in : Running num → List Rate
  rates_in r = map rate_of r.adjustments

  if-rates :
      (b : Bool) (x : Rate) (r r' : Running num)
      → rates_in r' ≡ rates_in r ++ x ∷ []
      → rates_in (if b then r' else r) ≡ rates_in r ++ cons? (when b x) []
  if-rates true x r r' e = e
  if-rates false x r r' e = simp append-nil

  if_not-rates :
      (b : Bool) (x : Rate) (r r' : Running num)
      → rates_in r' ≡ rates_in r ++ x ∷ []
      → rates_in (if b then r else r') ≡ rates_in r ++ cons? (when (not b) x) []
  if_not-rates true x r r' e = simp append-nil
  if_not-rates false x r r' e = e

  discount-rates :
      (t : PricingRuleType) (d : Decimal) (s : String) (r : Running num)
      → rates_in (discount num t d s r) ≡ rates_in r ++ (t, d) ∷ []
  unfolding discount
  discount-rates t d s r = simp map-append

  surcharge-rates :
      (t : PricingRuleType) (d : Decimal) (s : String) (r : Running num)
      → rates_in (surcharge num t d s r) ≡ rates_in r ++ (t, d) ∷ []
  unfolding surcharge
  surcharge-rates t d s r = simp map-append

  group_size-rates :
      (party : ℕ) (o : Option GroupSizeConfig) (r : Running num)
      → rates_in (apply_group_size num party o r) ≡ rates_in r ++ cons? (group_size_rate party o) []
  group_size-rates party none r = simp append-nil
  group_size-rates party (some c) r =
      rw (leb-eq-not c.min_party_size party)
        (if_not-rates (ltb party c.min_party_size) _ r _ (discount-rates _ c.discount_percent _ r))

  advance_booking-rates :
      (now : ℕ) (at : Option ℕ) (o : Option AdvanceBookingConfig) (r : Running num)
      → rates_in (apply_advance_booking num now at o r)
        ≡ rates_in r ++ cons? (advance_booking_rate now at o) []
  advance_booking-rates now at none r = simp append-nil
  advance_booking-rates now none (some c) r = simp append-nil
  advance_booking-rates now (some t) (some c) r =
      if_not-rates (ltb_ℕ (days_until t now) c.days_in_advance) _ r _
        (discount-rates _ c.discount_percent _ r)

  seasonal-rates :
      (at : Option ℕ) (o : Option SeasonalConfig) (r : Running num)
      → rates_in (apply_seasonal num at o r)
        ≡ rates_in r ++ cons? (seasonal_rate num.utc_month at o) []
  seasonal-rates at none r = simp append-nil
  seasonal-rates none (some c) r = simp append-nil
  seasonal-rates (some t) (some c) r =
      if-rates (includes c.months (num.utc_month t)) _ r _
        (surcharge-rates _ c.surcharge_percent _ r)

  module _ (now party : ℕ) (at : Option ℕ) where
    apply_by_type-rates :
        (t : PricingRuleType) (config : RuleConfig) (r : Running num)
        → rates_in (apply_by_type num now party at t config r)
          ≡ rates_in r ++ cons? (rate_by_type num.utc_month now party at t config) []
    unfolding apply_by_type
    apply_by_type-rates group_size config r = group_size-rates party (parse_group_size config) r
    apply_by_type-rates advance_booking config r =
        advance_booking-rates now at (parse_advance_booking config) r
    apply_by_type-rates seasonal config r = seasonal-rates at (parse_seasonal config) r

    apply_rules-rates :
        (rules : List PricingRuleConfig) (r : Running num)
        → rates_in (apply_rules num now party at rules r)
          ≡ rates_in r ++ rates num.utc_month now party at rules
    unfolding apply_rules
    apply_rules-rates [] r = simp append-nil
    apply_rules-rates (rule ∷ rules) r =
        apply_rules-rates rules (apply_by_type num now party at rule.rule_type rule.config r)
        ∙ ap (λ l. l ++ rates num.utc_month now party at rules)
            (apply_by_type-rates rule.rule_type rule.config r)
        ∙ append_cons? (rates_in r) _
            (rate_by_type num.utc_month now party at rule.rule_type rule.config)

  -- The adjustments of a preview name exactly the rules in force for the party and the slot, in the
  -- order of the rules, each with its percentage; a rule whose config its schema refuses, or that
  -- needs a start and has none, leaves no adjustment.
  pub preview-rates :
      (now : ℕ) (base : ℤ) (party : ℕ) (rules : List PricingRuleConfig) (at : Option ℕ)
      → map rate_of (calculate_pricing_preview num now base party rules at).adjustments
        ≡ rates num.utc_month now party at rules
  unfolding calculate_pricing_preview
  preview-rates now base party rules at = apply_rules-rates now party at rules _
