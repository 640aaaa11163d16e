-- ===== src/Search/Query.antt =====
-- The queries of src/services/experience.service.ts and their conditions on experiences and slots.
use booking_availability_pla.Shared.{
  ℕ, ℤ, pos, negsuc, neg_ℕ, ◌+◌, ◌*◌, ◌^◌, String, Bool, ◌&&◌, Option, leb, ltb, ◌==◌, matches?,
}
use booking_availability_pla.Model.{Experience, AvailabilitySlot, Decimal}
use booking_availability_pla.Dates.{Calendar, end_date_exclusive}
use booking_availability_pla.Listing.Bookings.{SortOrder, leb_ℤ}

-- What PostgreSQL does with texts, by its collation: `ILIKE '%part%'`, and the order of two texts.
pub record Collation : Type 0 where
  pub contains_insensitive : String → String → Bool
  pub text_le : String → String → Bool

pub data ExperienceSort : Type 0 where
  by_starts_at by_price by_title by_available_spots : ExperienceSort

pub record ExperienceSearchQuery : Type 0 where
  pub destination : Option String
  pub start_date : String
  pub end_date : String
  pub party_size : ℕ
  pub supplier_id : Option ℕ
  pub min_price : Option Decimal
  pub max_price : Option Decimal
  pub sort_by : ExperienceSort
  pub sort_order : SortOrder
  pub page : ℕ
  pub page_size : ℕ

pub record ExperienceDetailQuery : Type 0 where
  pub party_size : ℕ
  pub slot_id : Option ℕ
  pub start_date : Option String
  pub end_date : Option String

abbrev pub scale : ℤ → ℕ → ℤ
scale (pos n) k = pos (n * k)
scale (negsuc n) k = neg_ℕ ((n + 1) * k)

-- A number of a query against an amount in cents, both scaled to whole numbers.
abbrev pub decimal_le_cents : Decimal → ℤ → Bool
decimal_le_cents d cents = leb_ℤ (scale d.digits 100) (scale cents (10 ^ d.places))

abbrev pub cents_le_decimal : ℤ → Decimal → Bool
cents_le_decimal cents d = leb_ℤ (scale cents (10 ^ d.places)) (scale d.digits 100)

-- `{ tenantId, ...buildExperienceWhere(query) }`
abbrev pub experience_where : Collation → ℕ → ExperienceSearchQuery → Experience → Bool
experience_where collation tenant_id query e =
    e.tenant_id == tenant_id
    && e.active
    && leb query.party_size e.capacity
    && matches? (λ d. collation.contains_insensitive e.destination d) query.destination
    && matches? (λ s. e.supplier_id == s) query.supplier_id
    && matches? (λ d. decimal_le_cents d e.base_price) query.min_price
    && matches? (λ d. cents_le_decimal e.base_price d) query.max_price

-- The conditions on a slot, `capacity - reserved >= party_size` being on signed columns.
abbrev pub has_room : ℕ → AvailabilitySlot → Bool
has_room party_size s = leb (s.reserved_seats + party_size) s.capacity

abbrev pub is_open : Calendar → ℕ → ExperienceSearchQuery → AvailabilitySlot → Bool
is_open calendar tenant_id query s =
    s.tenant_id == tenant_id
    && leb (calendar.parse_utc_date query.start_date) s.starts_at
    && ltb s.starts_at (end_date_exclusive calendar query.end_date)
    && has_room query.party_size s

-- `slotFilters` of the detail.
abbrev pub detail_where : Calendar → ℕ → ℕ → ExperienceDetailQuery → AvailabilitySlot → Bool
detail_where calendar tenant_id experience_id query s =
    s.experience_id == experience_id
    && s.tenant_id == tenant_id
    && has_room query.party_size s
    && matches? (λ id. s.id == id) query.slot_id
    && matches? (λ d. leb (calendar.parse_utc_date d) s.starts_at) query.start_date
    && matches? (λ d. ltb s.starts_at (end_date_exclusive calendar d)) query.end_date
