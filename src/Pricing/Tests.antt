-- ===== src/Pricing/Tests.antt =====
-- Runs of src/services/pricing.service.ts, with fixed-point numbers in place of doubles.
use native.Mathlib.Nat.{div-le_of_le-mul, mul-le-mul_left}
use booking_availability_pla.Shared.{
  ℕ, pos, ◌≡◌, ◌≤◌, ◌*◌, ◌/◌, ◌^◌, refl, arith, none, some, [], ◌∷◌, map,
}
use booking_availability_pla.Model.{group_size, seasonal}
use booking_availability_pla.Fixtures.{fixed_point, unit, group_config, winter_config}
use booking_availability_pla.Pricing.Numbers.{NumericLaws, ◌≤¢◌}
use booking_availability_pla.Pricing.Preview.{PricingRuleConfig, calculate_pricing_preview}
use booking_availability_pla.Pricing.Rules.{rates, rate_of, preview-rates}
use booking_availability_pla.Pricing.Bounds.{preview_nonneg}

part-le : (x q : ℕ) → q ≤ unit → x * q / unit ≤ x
part-le x q h = div-le_of_le-mul unit (omega (arith, mul-le-mul_left x h))

percent-le : (n places : ℕ) → n ≤ 100 * 10 ^ places → n * unit / 10 ^ places ≤ 100 * unit
percent-le n places h = div-le_of_le-mul (10 ^ places) (omega arith)

laws : NumericLaws fixed_point
laws = record {
  Le = λ a b. a ≤ b;
  le_refl = λ x. omega arith;
  le_trans = λ x y z h k. omega arith;
  mul_nonneg = λ x y h k. omega arith;
  of_int_nonneg = λ n. omega arith;
  of_cents_nonneg = λ n. omega arith;
  percent_bounds = λ x d h k l. (omega arith, part-le x _ (omega arith));
  percent_nonneg = λ x d h k. omega arith;
  sub_bounds = λ x y h k. (omega arith, omega arith);
  add_grows = λ x y h. omega arith;
  to_fixed_mono = λ x y h. omega arith;
  to_fixed_zero = refl;
  of_decimal_nonneg = λ n places. omega arith;
  of_decimal_percent = λ n places h. percent-le n places h;
}

abbrev group_rule : PricingRuleConfig
group_rule = record { rule_type = group_size; config = group_config }

abbrev winter_rule : PricingRuleConfig
winter_rule = record { rule_type = seasonal; config = winter_config }

preview-rates_example :
    map rate_of
      (calculate_pricing_preview fixed_point 0
        (pos 5000)
        4
        (group_rule ∷ winter_rule ∷ [])
        (some 1000)).adjustments
    ≡ rates fixed_point.utc_month 0 4 (some 1000) (group_rule ∷ winter_rule ∷ [])
preview-rates_example =
    preview-rates fixed_point 0 (pos 5000) 4 (group_rule ∷ winter_rule ∷ []) (some 1000)

preview_nonneg_example :
    pos 0
    ≤¢ (calculate_pricing_preview fixed_point 0 (pos 5000) 4 (group_rule ∷ []) none).total_price
preview_nonneg_example = preview_nonneg fixed_point laws 0 5000 4 (group_rule ∷ []) none
