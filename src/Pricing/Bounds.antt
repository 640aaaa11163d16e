-- ===== src/Pricing/Bounds.antt =====
-- How far the rules of src/services/pricing.service.ts can move a price.
use booking_availability_pla.Shared.{
  ℕ, ℤ, String, pos, negsuc, ◌≡◌, ◌≢◌, refl, true, false, Bool, Option, none, some, List, [], ◌∷◌,
  arith, ltb, All, if◌then◌else◌, Bool-cases, inl, inr, ltb_ℕ,
}
use booking_availability_pla.Model.{
  Decimal, RuleConfig, PricingRuleType, group_size, advance_booking, seasonal,
}
use booking_availability_pla.Pricing.Numbers.{Numeric, NumericLaws, ◌≤¢◌}
use booking_availability_pla.Pricing.Configs.{
  parse_group_size, parse_advance_booking, parse_seasonal, is_percent, is_nonneg,
  group_size-percent, advance_booking-percent, seasonal-percent, GroupSizeConfig,
  AdvanceBookingConfig, SeasonalConfig,
}
use booking_availability_pla.Pricing.Preview.{
  PricingRuleConfig, days_until, includes, Running, apply_by_type, apply_rules,
  calculate_pricing_preview, discount, surcharge, apply_group_size, apply_advance_booking,
  apply_seasonal,
}

module _ (num : Numeric) (laws : NumericLaws num) where
  open num use {Num, of_int, of_decimal}
  open laws use {Le}

  -- The total is not negative, and at most `x`.
  abbrev Within : Num → Running num → Type 0
  Within x r = Le (of_int 0) r.total × Le r.total x

  is_nonneg_le :
      (z : ℤ) (places : ℕ)
      → is_nonneg (record { digits = z; places = places }) ≡ true
      → Le (of_int 0) (of_decimal (record { digits = z; places = places }))
  is_nonneg_le (pos n) places h = laws.of_decimal_nonneg n places
  is_nonneg_le (negsuc n) places h = cc

  is_percent_le :
      (z : ℤ) (places : ℕ)
      → let d : Decimal = record { digits = z; places = places } in
        is_percent d ≡ true → Le (of_int 0) (of_decimal d) × Le (of_decimal d) (of_int 100)
  is_percent_le (pos n) places h =
      (laws.of_decimal_nonneg n places, laws.of_decimal_percent n places (ground arith))
  is_percent_le (negsuc n) places h = cc

  discount-Within :
      (t : PricingRuleType) (d : Decimal) (s : String) (r : Running num)
      → is_percent d ≡ true
      → Le (of_int 0) r.total
      → Within r.total (discount num t d s r)
  unfolding discount
  discount-Within t d s r h p =
      let (lo, hi) = is_percent_le d.digits d.places h in
      let (plo, phi) = laws.percent_bounds r.total d p lo hi in laws.sub_bounds r.total _ plo phi

  surcharge-Le :
      (t : PricingRuleType) (d : Decimal) (s : String) (r : Running num)
      → is_nonneg d ≡ true
      → Le (of_int 0) r.total
      → Le r.total (surcharge num t d s r).total
  unfolding surcharge
  surcharge-Le t d s r h p =
      laws.add_grows r.total _ (laws.percent_nonneg r.total d p (is_nonneg_le d.digits d.places h))

  unchanged-Within : (r : Running num) → Le (of_int 0) r.total → Within r.total r
  unchanged-Within r p = (p, laws.le_refl r.total)

  if-Within :
      (b : Bool) (x : Num) (r r' : Running num)
      → Within x r
      → Within x r'
      → Within x (if b then r else r')
  if-Within true x r r' h h' = h
  if-Within false x r r' h h' = h'

  group_size-Within :
      (party : ℕ) (o : Option GroupSizeConfig) (r : Running num)
      → ((c : GroupSizeConfig) → o ≡ some c → is_percent c.discount_percent ≡ true)
      → Le (of_int 0) r.total
      → Within r.total (apply_group_size num party o r)
  group_size-Within party none r h p = unchanged-Within r p
  group_size-Within party (some c) r h p = elim (Bool-cases (ltb party c.min_party_size)) [
    | inl e ↦ rw e (unchanged-Within r p)
    | inr e ↦ rw e (discount-Within _ c.discount_percent _ r (h c refl) p)
  ]

  advance_booking-Within :
      (now : ℕ) (at : Option ℕ) (o : Option AdvanceBookingConfig) (r : Running num)
      → ((c : AdvanceBookingConfig) → o ≡ some c → is_percent c.discount_percent ≡ true)
      → Le (of_int 0) r.total
      → Within r.total (apply_advance_booking num now at o r)
  advance_booking-Within now at none r h p = unchanged-Within r p
  advance_booking-Within now none (some c) r h p = unchanged-Within r p
  advance_booking-Within now (some t) (some c) r h p =
      if-Within (ltb_ℕ (days_until t now) c.days_in_advance) r.total r _ (unchanged-Within r p)
        (discount-Within _ c.discount_percent _ r (h c refl) p)

  seasonal-Le :
      (at : Option ℕ) (o : Option SeasonalConfig) (r : Running num)
      → ((c : SeasonalConfig) → o ≡ some c → is_nonneg c.surcharge_percent ≡ true)
      → Le (of_int 0) r.total
      → Le r.total (apply_seasonal num at o r).total
  seasonal-Le at none r h p = laws.le_refl r.total
  seasonal-Le none (some c) r h p = laws.le_refl r.total
  seasonal-Le (some t) (some c) r h p = elim (Bool-cases (includes c.months (num.utc_month t))) [
    | inl e ↦ rw e (surcharge-Le _ c.surcharge_percent _ r (h c refl) p)
    | inr e ↦ rw e (laws.le_refl r.total)
  ]

  -- What one rule does to the total.
  abbrev Moves : PricingRuleType → Num → Num → Type 0
  Moves group_size x y = Le (of_int 0) y × Le y x
  Moves advance_booking x y = Le (of_int 0) y × Le y x
  Moves seasonal x y = Le x y

  module _ (now party : ℕ) (at : Option ℕ) where
    apply_by_type-Moves :
        (t : PricingRuleType) (config : RuleConfig) (r : Running num)
        → Le (of_int 0) r.total
        → Moves t r.total (apply_by_type num now party at t config r).total
    unfolding apply_by_type
    apply_by_type-Moves group_size config r p =
        group_size-Within party (parse_group_size config) r (group_size-percent config) p
    apply_by_type-Moves advance_booking config r p =
        advance_booking-Within now at (parse_advance_booking config) r
          (advance_booking-percent config) p
    apply_by_type-Moves seasonal config r p =
        seasonal-Le at (parse_seasonal config) r (seasonal-percent config) p

    Moves-nonneg :
        (t : PricingRuleType) (x y : Num) → Le (of_int 0) x → Moves t x y → Le (of_int 0) y
    Moves-nonneg group_size x y p m = m.0
    Moves-nonneg advance_booking x y p m = m.0
    Moves-nonneg seasonal x y p m = laws.le_trans _ x y p m

    Moves-le : (t : PricingRuleType) (x y : Num) → t ≢ seasonal → Moves t x y → Le y x
    Moves-le group_size x y h m = m.1
    Moves-le advance_booking x y h m = m.1
    Moves-le seasonal x y h m = absurd (h refl)

    Moves-ge : (t : PricingRuleType) (x y : Num) → t ≡ seasonal → Moves t x y → Le x y
    Moves-ge group_size x y h m = cc
    Moves-ge advance_booking x y h m = cc
    Moves-ge seasonal x y h m = m

    apply_rules-nonneg :
        (rules : List PricingRuleConfig) (r : Running num)
        → Le (of_int 0) r.total
        → Le (of_int 0) (apply_rules num now party at rules r).total
    unfolding apply_rules
    apply_rules-nonneg [] r p = p
    apply_rules-nonneg (rule ∷ rules) r p =
        apply_rules-nonneg rules (apply_by_type num now party at rule.rule_type rule.config r)
          (Moves-nonneg rule.rule_type _ _ p (apply_by_type-Moves rule.rule_type rule.config r p))

    apply_rules-le :
        (rules : List PricingRuleConfig) (r : Running num)
        → All (λ rule. rule.rule_type ≢ seasonal) rules
        → Le (of_int 0) r.total
        → Le (apply_rules num now party at rules r).total r.total
    unfolding apply_rules
    apply_rules-le [] r h p = laws.le_refl r.total
    apply_rules-le (rule ∷ rules) r h p =
        let moved = apply_by_type-Moves rule.rule_type rule.config r p in
        laws.le_trans _ _ _
          (apply_rules-le rules (apply_by_type num now party at rule.rule_type rule.config r) h.1
            (Moves-nonneg rule.rule_type _ _ p moved))
          (Moves-le rule.rule_type _ _ h.0 moved)

    apply_rules-ge :
        (rules : List PricingRuleConfig) (r : Running num)
        → All (λ rule. rule.rule_type ≡ seasonal) rules
        → Le (of_int 0) r.total
        → Le r.total (apply_rules num now party at rules r).total
    unfolding apply_rules
    apply_rules-ge [] r h p = laws.le_refl r.total
    apply_rules-ge (rule ∷ rules) r h p =
        let moved = apply_by_type-Moves rule.rule_type rule.config r p in
        laws.le_trans _ _ _ (Moves-ge rule.rule_type _ _ h.0 moved) (
          apply_rules-ge rules (apply_by_type num now party at rule.rule_type rule.config r) h.1
            (Moves-nonneg rule.rule_type _ _ p moved))

  subtotal_nonneg : (n party : ℕ) → Le (of_int 0) (num.mul (num.of_cents (pos n)) (of_int party))
  subtotal_nonneg n party = laws.mul_nonneg _ _ (laws.of_cents_nonneg n) (laws.of_int_nonneg party)

  module _ (now n party : ℕ) (rules : List PricingRuleConfig) (at : Option ℕ) where
    -- The total of a preview is never negative, whatever the rules, where the base price is not and the
    -- arithmetic obeys its laws.
    pub preview_nonneg :
        pos 0 ≤¢ (calculate_pricing_preview num now (pos n) party rules at).total_price
    unfolding calculate_pricing_preview
    preview_nonneg =
        rw (← laws.to_fixed_zero) (
          laws.to_fixed_mono _ _
            (apply_rules-nonneg now party at rules _ (subtotal_nonneg n party)))

    -- Where the base price is not negative and no rule is seasonal, the price is at most the subtotal, by the laws of the arithmetic.
    pub preview-le-subtotal :
        All (λ rule. rule.rule_type ≢ seasonal) rules
        → let preview = calculate_pricing_preview num now (pos n) party rules at in
          preview.total_price ≤¢ preview.subtotal
    unfolding calculate_pricing_preview
    preview-le-subtotal h =
        laws.to_fixed_mono _ _ (apply_rules-le now party at rules _ h (subtotal_nonneg n party))

    -- Where the base price is not negative and every rule is seasonal, the price is at least the
    -- subtotal, by the laws of the arithmetic.
    pub subtotal-le-preview :
        All (λ rule. rule.rule_type ≡ seasonal) rules
        → let preview = calculate_pricing_preview num now (pos n) party rules at in
          preview.subtotal ≤¢ preview.total_price
    unfolding calculate_pricing_preview
    subtotal-le-preview h =
        laws.to_fixed_mono _ _ (apply_rules-ge now party at rules _ h (subtotal_nonneg n party))
