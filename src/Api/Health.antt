-- ===== src/Api/Health.antt =====
-- `GET /health` of src/app.ts over src/lib/database.ts; whether the database answers is an argument.
use booking_availability_pla.Shared.{String, Bool, true, false, some, List, [], ◌∷◌}
use booking_availability_pla.Errors.{service_unavailable_error}
use booking_availability_pla.Service.{World, Action, ◌>>◌, pure, throw}
use booking_availability_pla.Api.Responses.{Response, respond}
use booking_availability_pla.Api.Routes.{ok_status}

abbrev pub assert_database_healthy : Bool → Action (Unit {0})
assert_database_healthy true = pure tt
assert_database_healthy false = throw (
    service_unavailable_error "Database is not reachable"
      (some (("database", "disconnected") ∷ [])))

abbrev pub get_health : Bool → World → Response (List (String × String)) × World
get_health answers w = respond ok_status (
    (do assert_database_healthy answers; pure (("status", "ok") ∷ ("database", "connected") ∷ []))
      w)
