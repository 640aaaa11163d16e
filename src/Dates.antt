-- ===== src/Dates.antt =====
-- src/utils/utils.ts: dates in UTC, and references. Reading a date's text is JavaScript's `Date`: it is a parameter.
use booking_availability_pla.Shared.{ℕ, ◌+◌, ◌*◌, String, ◌<>◌}

pub record Calendar : Type 0 where
  -- `new Date(`${date}T00:00:00.000Z`)`
  pub parse_utc_date : String → ℕ

abbrev pub day_ms : ℕ
day_ms = 1000 * 60 * 60 * 24

-- `setUTCDate(getUTCDate() + 1)`: a UTC day has no change of clock.
abbrev pub end_date_exclusive : Calendar → String → ℕ
end_date_exclusive calendar date = calendar.parse_utc_date date + day_ms

-- `formatUtcDate` is `toISOString().slice(0, 10)`: the printing is JavaScript's, a parameter.
abbrev pub default_search_start_date : (ℕ → String) → ℕ → String
default_search_start_date format_utc_date now = format_utc_date now

-- `setUTCDate(getUTCDate() + 90)`
abbrev pub default_search_end_date : (ℕ → String) → ℕ → String
default_search_end_date format_utc_date now = format_utc_date (now + 90 * day_ms)

-- `generateBookingReference`, of the upper-case hexadecimal digits of four random bytes.
abbrev pub booking_reference : String → String
booking_reference suffix = "BK-" <> suffix
