-- ===== src/Config.antt =====
-- src/config/env.ts: durations, numbers and texts from the environment. An `Error` is `none` here. The reading
-- of a number and the trimming of a text are JavaScript's: they are parameters.
use booking_availability_pla.Shared.{
  ℕ, ℤ, pos, negsuc, zero, suc, ◌+◌, ◌*◌, ◌≡◌, refl, String, Bool, true, false, Option, none, some,
  List, [], ◌∷◌, same_text, if◌then◌else◌, arith,
}
use booking_availability_pla.Model.{Decimal}
use Prim.Native.String.{slice, len}
mod Tests

-- The variables that are set.
abbrev pub Env : Type 0
Env = String → Option String

-- What is not set, or is empty, is missing.
abbrev pub filled : Option String → Option String
filled none = none
filled (some value) = if same_text value "" then none else some value

abbrev pub require_env : Env → String → Option String
require_env env name = filled (env name)

abbrev pub or_default : Option String → String → String
or_default none fallback = fallback
or_default (some value) fallback = value

abbrev pub digit_of : String → Option ℕ
digit_of c =
    if same_text c "0"
    then some 0
    else if same_text c "1"
    then some 1
    else if same_text c "2"
    then some 2
    else if same_text c "3"
    then some 3
    else if same_text c "4"
    then some 4
    else if same_text c "5"
    then some 5
    else if same_text c "6"
    then some 6
    else if same_text c "7"
    then some 7
    else if same_text c "8"
    then some 8
    else if same_text c "9"
    then some 9
    else none

-- The characters of a text, from one on.
abbrev chars_from : String → ℕ → ℕ → List String
chars_from text start zero = []
chars_from text start (suc n) = slice text start (start + 1) ∷ chars_from text (start + 1) n

abbrev pub in_unit : ℕ → String → Option ℕ
in_unit amount unit =
    if same_text unit "s"
    then some amount
    else if same_text unit "m"
    then some (amount * 60)
    else if same_text unit "h"
    then some (amount * 60 * 60)
    else if same_text unit "d"
    then some (amount * 60 * 60 * 24)
    else none

-- What ends the digits: one letter, behind one digit at least.
abbrev pub ends_with_unit : ℕ → Bool → String → List String → Option ℕ
ends_with_unit amount true unit [] = in_unit amount unit
ends_with_unit _ _ _ _ = none

-- `^(\d+)([smhd])$`, with the digits read so far.
abbrev pub match_duration : ℕ → Bool → List String → Option ℕ
match_duration amount seen [] = none
match_duration amount seen (c ∷ cs) = elim (digit_of c) [
  | some d ↦ match_duration (amount * 10 + d) true cs
  | none ↦ ends_with_unit amount seen c cs
]

module _ (trim : String → String) (number : String → Option Decimal) where
  unfoldable pub parse_duration_to_seconds : String → Option ℕ
  parse_duration_to_seconds duration =
      match_duration 0 false (chars_from (trim duration) 0 (len (trim duration)))

  -- `Number.isFinite(parsed) && parsed >= 0`
  abbrev pub not_negative : Option Decimal → Option Decimal
  not_negative none = none
  not_negative (some d) = elim d.digits [ pos n ↦ some d | negsuc n ↦ none ]

  abbrev pub parsed_or : Option String → Decimal → Option Decimal
  parsed_or none fallback = some fallback
  parsed_or (some raw) fallback = not_negative (number raw)

  abbrev pub optional_int : Env → String → Decimal → Option Decimal
  optional_int env name fallback = parsed_or (filled (env name)) fallback

  abbrev pub jwt_access_expires_in : Env → String
  jwt_access_expires_in env = or_default (env "JWT_ACCESS_EXPIRES_IN") "15m"

  abbrev pub jwt_refresh_expires_in : Env → String
  jwt_refresh_expires_in env = or_default (env "JWT_REFRESH_EXPIRES_IN") "30d"

  abbrev pub booking_reserve_ttl_seconds : Env → Option ℕ
  booking_reserve_ttl_seconds env =
      parse_duration_to_seconds (or_default (env "BOOKING_RESERVE_TTL") "15m")

  -- `process.env.JWT_REFRESH_SECRET ?? requireEnv("JWT_ACCESS_SECRET")`
  abbrev pub jwt_refresh_secret : Env → Option String
  jwt_refresh_secret env = elim (env "JWT_REFRESH_SECRET") [
    | none ↦ require_env env "JWT_ACCESS_SECRET"
    | some secret ↦ some secret
  ]
