-- ===== src/Pricing/Configs.antt =====
-- The config schemas of src/schemas/responses/pricing.responses.ts: `safeParse` gives the typed
-- config, or nothing where a field is missing or out of range.
use booking_availability_pla.Shared.{
  ℕ, pos, negsuc, String, Bool, true, false, ◌&&◌, Option, none, some, List, [], ◌∷◌, ◌/◌, ◌%◌, ◌*◌,
  ◌^◌, ◌≡◌, leb, ◌==◌, if◌then◌else◌, same_text, not, arith,
}
use booking_availability_pla.Model.{Decimal, RuleConfig}

-- `z.number().int()` for a number that is not negative.
abbrev pub as_int : Decimal → Option ℕ
as_int d = elim d.digits [
  | pos n ↦ if n % 10 ^ d.places == 0 then some (n / 10 ^ d.places) else none
  | negsuc n ↦ none
]

-- `z.number().int().min(lo).max(hi)`, the upper bound left out by `none`.
abbrev pub int_in : ℕ → Option ℕ → Decimal → Option ℕ
int_in lo hi d = elim (as_int d) [
  | none ↦ none
  | some n ↦ if leb lo n && elim hi [ none ↦ true | some h ↦ leb n h ] then some n else none
]

-- `z.number().min(0)` and `z.number().min(0).max(100)`
abbrev pub is_nonneg : Decimal → Bool
is_nonneg d = elim d.digits [ pos n ↦ true | negsuc n ↦ false ]

abbrev pub is_percent : Decimal → Bool
is_percent d = elim d.digits [ pos n ↦ leb n (100 * 10 ^ d.places) | negsuc n ↦ false ]

-- `a ← o`, for parsing field by field.
abbrev pub ◌>>=?◌ : {A B : Type 0} → Option A → (A → Option B) → Option B
◌>>=?◌ none f = none
◌>>=?◌ (some a) f = f a

abbrev pub check : {A : Type 0} → (A → Bool) → A → Option A
check p a = if p a then some a else none

abbrev pub parse_all : {A B : Type 0} → (A → Option B) → List A → Option (List B)
parse_all p [] = some []
parse_all p (x ∷ xs) = ◌>>=?◌ (p x) λ y. ◌>>=?◌ (parse_all p xs) λ ys. some (y ∷ ys)

abbrev is_cons : List ℕ → Bool
is_cons [] = false
is_cons (x ∷ xs) = true

pub record GroupSizeConfig : Type 0 where
  pub min_party_size : ℕ
  pub discount_percent : Decimal

pub record AdvanceBookingConfig : Type 0 where
  pub days_in_advance : ℕ
  pub discount_percent : Decimal

pub record SeasonalConfig : Type 0 where
  pub season : String
  pub months : List ℕ
  pub surcharge_percent : Decimal

-- `groupSizeConfigSchema.safeParse`
unfoldable pub parse_group_size : RuleConfig → Option GroupSizeConfig
parse_group_size c = ◌>>=?◌ (◌>>=?◌ c.min_party_size (int_in 1 none)) λ size.
    ◌>>=?◌ (◌>>=?◌ c.discount_percent (check is_percent))
      λ percent. some (record { min_party_size = size; discount_percent = percent })

-- `advanceBookingConfigSchema.safeParse`
unfoldable pub parse_advance_booking : RuleConfig → Option AdvanceBookingConfig
parse_advance_booking c = ◌>>=?◌ (◌>>=?◌ c.days_in_advance (int_in 0 none)) λ days.
    ◌>>=?◌ (◌>>=?◌ c.discount_percent (check is_percent))
      λ percent. some (record { days_in_advance = days; discount_percent = percent })

-- `seasonalConfigSchema.safeParse`
unfoldable pub parse_seasonal : RuleConfig → Option SeasonalConfig
parse_seasonal c = ◌>>=?◌ (◌>>=?◌ c.season (check (λ s. not (same_text s "")))) λ season.
    ◌>>=?◌ (◌>>=?◌ c.months (parse_all (int_in 1 (some 12)))) λ months.
      ◌>>=?◌ (check is_cons months) λ _.
        ◌>>=?◌ (◌>>=?◌ c.surcharge_percent (check is_nonneg))
          λ percent. some (record { season = season; months = months; surcharge_percent = percent })

-- The percentages that come out of a schema are in its range.
pub group_size-percent :
    (c : RuleConfig) (g : GroupSizeConfig)
    → parse_group_size c ≡ some g
    → is_percent g.discount_percent ≡ true
unfolding parse_group_size
group_size-percent c g e = ground arith

pub advance_booking-percent :
    (c : RuleConfig) (g : AdvanceBookingConfig)
    → parse_advance_booking c ≡ some g
    → is_percent g.discount_percent ≡ true
unfolding parse_advance_booking
advance_booking-percent c g e = ground arith

pub seasonal-percent :
    (c : RuleConfig) (g : SeasonalConfig)
    → parse_seasonal c ≡ some g
    → is_nonneg g.surcharge_percent ≡ true
unfolding parse_seasonal
seasonal-percent c g e = ground arith
