-- ===== src/Pricing/Preview.antt =====
-- `calculatePricingPreview` of src/services/pricing.service.ts. Amounts of money are the cents that
-- `formatMoney` prints; `now` is the reading of `Date.now()`.
use booking_availability_pla.Shared.{
  ℕ, ℤ, pos, String, ◌<>◌, ◌*◌, Bool, false, ◌||◌, Option, none, some, List, [], ◌∷◌, ◌++◌, ltb,
  ◌==◌, if◌then◌else◌, sub_ℕ, floor_div, ltb_ℕ,
}
use booking_availability_pla.Model.{
  Decimal, RuleConfig, PricingRuleType, group_size, advance_booking, seasonal,
}
use booking_availability_pla.Pricing.Numbers.{Numeric}
use booking_availability_pla.Pricing.Configs.{
  parse_group_size, parse_advance_booking, parse_seasonal, GroupSizeConfig, AdvanceBookingConfig,
  SeasonalConfig,
}

pub record PricingRuleConfig : Type 0 where
  pub rule_type : PricingRuleType
  pub config : RuleConfig

pub record PricingAdjustment : Type 0 where
  pub rule_type : PricingRuleType
  pub description : String
  pub percent : Decimal
  pub amount : ℤ

pub record PricingPreview : Type 0 where
  pub party_size : ℕ
  pub base_price_per_person : ℤ
  pub subtotal : ℤ
  pub adjustments : List PricingAdjustment
  pub total_price : ℤ

-- `Math.floor((slotStartsAt.getTime() - Date.now()) / (1000 * 60 * 60 * 24))`
abbrev pub days_until : ℕ → ℕ → ℤ
days_until starts_at now = floor_div (sub_ℕ starts_at now) (1000 * 60 * 60 * 24)

-- `Array.prototype.includes` on numbers.
abbrev pub includes : List ℕ → ℕ → Bool
includes [] n = false
includes (m ∷ ms) n = m == n || includes ms n

abbrev int_decimal : ℕ → Decimal
int_decimal n = record { digits = pos n; places = 0 }

module _ (num : Numeric) where
  open num use {Num, of_int, of_cents, of_decimal, neg, add, sub, mul, div, to_fixed, to_text}

  -- The variables of the loop: `runningTotal` and `adjustments`.
  pub record Running : Type 0 where
    pub total : Num
    pub adjustments : List PricingAdjustment

  abbrev pub percent_of : Num → Decimal → Num
  percent_of total percent = mul total (div (of_decimal percent) (of_int 100))

  unfoldable pub discount : PricingRuleType → Decimal → String → Running → Running
  discount rule_type percent description r =
      let amount = percent_of r.total percent in
      record {
        total = sub r.total amount;
        adjustments =
            r.adjustments
            ++ record {
              rule_type = rule_type;
              description = description;
              percent = percent;
              amount = to_fixed (neg amount);
            }
              ∷ [];
      }

  unfoldable pub surcharge : PricingRuleType → Decimal → String → Running → Running
  surcharge rule_type percent description r =
      let amount = percent_of r.total percent in
      record {
        total = add r.total amount;
        adjustments =
            r.adjustments
            ++ record {
              rule_type = rule_type;
              description = description;
              percent = percent;
              amount = to_fixed amount;
            }
              ∷ [];
      }

  pub group_size_text : GroupSizeConfig → String
  group_size_text c =
      "Group size discount ("
      <> to_text c.discount_percent
      <> "% off for "
      <> to_text (int_decimal c.min_party_size)
      <> "+ guests)"

  pub advance_booking_text : AdvanceBookingConfig → String
  advance_booking_text c =
      "Advance booking discount ("
      <> to_text c.discount_percent
      <> "% off for "
      <> to_text (int_decimal c.days_in_advance)
      <> "+ days ahead)"

  pub seasonal_text : SeasonalConfig → String
  seasonal_text c =
      "Seasonal surcharge (" <> to_text c.surcharge_percent <> "% " <> c.season <> " rate)"

  -- The `case`s of the `switch`, on the parsed config.
  abbrev pub apply_group_size : ℕ → Option GroupSizeConfig → Running → Running
  apply_group_size party_size none r = r
  apply_group_size party_size (some c) r =
      if ltb party_size c.min_party_size
      then r
      else discount group_size c.discount_percent (group_size_text c) r

  abbrev pub apply_advance_booking : ℕ → Option ℕ → Option AdvanceBookingConfig → Running → Running
  apply_advance_booking now starts_at none r = r
  apply_advance_booking now none (some c) r = r
  apply_advance_booking now (some at) (some c) r =
      if ltb_ℕ (days_until at now) c.days_in_advance
      then r
      else discount advance_booking c.discount_percent (advance_booking_text c) r

  abbrev pub apply_seasonal : Option ℕ → Option SeasonalConfig → Running → Running
  apply_seasonal starts_at none r = r
  apply_seasonal none (some c) r = r
  apply_seasonal (some at) (some c) r =
      if includes c.months (num.utc_month at)
      then surcharge seasonal c.surcharge_percent (seasonal_text c) r
      else r

  -- The `switch` in the loop's body.
  unfoldable pub apply_by_type : ℕ → ℕ → Option ℕ → PricingRuleType → RuleConfig → Running → Running
  apply_by_type now party_size at group_size config r =
      apply_group_size party_size (parse_group_size config) r
  apply_by_type now party_size at advance_booking config r =
      apply_advance_booking now at (parse_advance_booking config) r
  apply_by_type now party_size at seasonal config r = apply_seasonal at (parse_seasonal config) r

  unfoldable pub apply_rules : ℕ → ℕ → Option ℕ → List PricingRuleConfig → Running → Running
  apply_rules now party_size at [] r = r
  apply_rules now party_size at (rule ∷ rules) r =
      apply_rules now party_size at rules
        (apply_by_type now party_size at rule.rule_type rule.config r)

  unfoldable pub calculate_pricing_preview :
      ℕ → ℤ → ℕ → List PricingRuleConfig → Option ℕ → PricingPreview
  calculate_pricing_preview now base_price party_size rules slot_starts_at =
      let subtotal = mul (of_cents base_price) (of_int party_size) in
      let final =
        apply_rules now party_size slot_starts_at rules
          (record { total = subtotal; adjustments = [] }) in
      record {
        party_size = party_size;
        base_price_per_person = to_fixed (of_cents base_price);
        subtotal = to_fixed subtotal;
        adjustments = final.adjustments;
        total_price = to_fixed final.total;
      }
