-- ===== src/Pricing/Numbers.antt =====
-- What src/services/pricing.service.ts uses of JavaScript's numbers (IEEE doubles) and dates. The
-- operations are a parameter; the laws are those of rounding to nearest, which is monotone.
use booking_availability_pla.Shared.{ℕ, ℤ, pos, negsuc, String, ◌≤◌, ◌*◌, ◌^◌, ◌≡◌}
use booking_availability_pla.Model.{Decimal}

pub record Numeric : Type 1 where
  pub Num : Type 0
  pub of_int : ℕ → Num
  -- `Number(value.toString())` of a `Decimal(12,2)`, and the number that a JSON column holds.
  pub of_cents : ℤ → Num
  pub of_decimal : Decimal → Num
  pub neg : Num → Num
  pub add : Num → Num → Num
  pub sub : Num → Num → Num
  pub mul : Num → Num → Num
  pub div : Num → Num → Num
  -- `toFixed(2)`, as a number of cents.
  pub to_fixed : Num → ℤ
  -- A number in a template literal.
  pub to_text : Decimal → String
  -- `getUTCMonth() + 1`
  pub utc_month : ℕ → ℕ

-- `a ≤ b` on amounts in cents.
infix 50 ◌≤¢◌
abbrev pub ◌≤¢◌ : ℤ → ℤ → Type 0
◌≤¢◌ (pos a) (pos b) = a ≤ b
◌≤¢◌ (pos a) (negsuc b) = ⊥
◌≤¢◌ (negsuc a) (pos b) = Unit
◌≤¢◌ (negsuc a) (negsuc b) = b ≤ a

pub record NumericLaws (num : Numeric) : Type 1 where
  pub Le : num.Num → num.Num → Type 0
  pub le_refl : (x : num.Num) → Le x x
  pub le_trans : (x y z : num.Num) → Le x y → Le y z → Le x z
  -- A non-negative price times a head count is not negative.
  pub mul_nonneg :
      (x y : num.Num) → Le (num.of_int 0) x → Le (num.of_int 0) y → Le (num.of_int 0) (num.mul x y)
  pub of_int_nonneg : (n : ℕ) → Le (num.of_int 0) (num.of_int n)
  pub of_cents_nonneg : (n : ℕ) → Le (num.of_int 0) (num.of_cents (pos n))
  -- A percentage from 0 to 100 takes at least nothing and at most the whole.
  pub percent_bounds :
      (x : num.Num) (d : Decimal)
      → Le (num.of_int 0) x
      → Le (num.of_int 0) (num.of_decimal d)
      → Le (num.of_decimal d) (num.of_int 100)
      → let part = num.mul x (num.div (num.of_decimal d) (num.of_int 100)) in
        Le (num.of_int 0) part × Le part x
  -- A surcharge is not negative.
  pub percent_nonneg :
      (x : num.Num) (d : Decimal)
      → Le (num.of_int 0) x
      → Le (num.of_int 0) (num.of_decimal d)
      → Le (num.of_int 0) (num.mul x (num.div (num.of_decimal d) (num.of_int 100)))
  pub sub_bounds :
      (x y : num.Num)
      → Le (num.of_int 0) y
      → Le y x
      → Le (num.of_int 0) (num.sub x y) × Le (num.sub x y) x
  pub add_grows : (x y : num.Num) → Le (num.of_int 0) y → Le x (num.add x y)
  pub to_fixed_mono : (x y : num.Num) → Le x y → num.to_fixed x ≤¢ num.to_fixed y
  pub to_fixed_zero : num.to_fixed (num.of_int 0) ≡ pos 0
  -- What the config schemas compare is compared alike as numbers.
  pub of_decimal_nonneg :
      (n places : ℕ)
      → Le (num.of_int 0) (num.of_decimal (record { digits = pos n; places = places }))
  pub of_decimal_percent :
      (n places : ℕ)
      → n ≤ 100 * 10 ^ places
      → Le (num.of_decimal (record { digits = pos n; places = places })) (num.of_int 100)
