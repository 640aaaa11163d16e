-- ===== src/Config/Tests.antt =====
-- Durations of src/config/env.ts.
use booking_availability_pla.Shared.{◌≡◌, refl, none, some}
use booking_availability_pla.Config.{parse_duration_to_seconds}

a_quarter_of_an_hour : parse_duration_to_seconds (λ s. s) (λ s. none) "15m" ≡ some 900
unfolding parse_duration_to_seconds
a_quarter_of_an_hour = refl

no_unit : parse_duration_to_seconds (λ s. s) (λ s. none) "15" ≡ none
unfolding parse_duration_to_seconds
no_unit = refl
