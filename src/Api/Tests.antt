-- ===== src/Api/Tests.antt =====
-- Requests to the routes of src/routes on a small database.
use booking_availability_pla.Shared.{
  ℕ, zero, suc, false, ◌<◌, ◌≡◌, refl, arith, some, none, [], ◌∷◌,
}
use booking_availability_pla.Model.{viewer}
use booking_availability_pla.Service.{World}
use booking_availability_pla.Fixtures.{crypto_of, world, fixed_point}
use booking_availability_pla.Booking.Views.{BookingSummary, to_booking_summary}
use booking_availability_pla.Booking.Reserve.{
  Draw, CreateBookingBody, find_slot, create_reservation, commit_reservation, reserve_seats,
  create_booking,
}
use booking_availability_pla.Booking.Slots.{
  adjust_slot_reserved, update_slots, append_status_history,
}
use booking_availability_pla.Auth.Tokens.{Crypto}
use booking_availability_pla.Auth.Guards.{auth_middleware, check_account}
use booking_availability_pla.Api.Logs.{configured_level, should_log, completed_level}
use booking_availability_pla.Api.Responses.{Response, send_success, send_error}
use booking_availability_pla.Api.Validation.{
  Parsed, parsed, zod_error, Request, validate_parts, validate_request,
}
use booking_availability_pla.Api.BookingRoutes.{create_booking_action, post_booking}
use booking_availability_pla.Api.Answers.{IsAnswer, post_booking_sound}

abbrev crypto : Crypto
crypto = crypto_of viewer

abbrev draw : Draw
draw = record { now = 2000; ttl_seconds = 900; booking_id = 42; reference = "BK-NEW" }

-- A body is the size of a party, and a party has one guest at least.
abbrev schema : ℕ → Parsed ℕ
schema zero = zod_error (record { path = "party_size" ∷ []; message = "Too small" } ∷ [])
schema (suc n) = parsed (suc n)

abbrev as_body : ℕ → CreateBookingBody
as_body n = record { slot_id = 30; party_size = n }

schema_party : (v p : ℕ) → schema v ≡ parsed p → 0 < (as_body p).party_size
schema_party zero p e = cc
schema_party (suc n) p e = ground arith

abbrev request : ℕ → Request ℕ
request n = record {
  body = n;
  query = 0;
  params = 0;
  validated_body = none;
  validated_query = none;
  validated_params = none;
}

abbrev status_of : Response BookingSummary × World → ℕ
status_of (r, w) = r.status_code

-- Four guests get their seats; none get an error, and so does a request without a token.
four_created :
    status_of
      (post_booking crypto fixed_point schema as_body draw (some "Bearer jwt") (request 4) world)
    ≡ 201
unfolding post_booking create_booking_action auth_middleware check_account validate_request
    validate_parts create_reservation find_slot commit_reservation reserve_seats create_booking
    adjust_slot_reserved update_slots append_status_history to_booking_summary send_success
    send_error
four_created = refl

none_refused :
    status_of
      (post_booking crypto fixed_point schema as_body draw (some "Bearer jwt") (request 0) world)
    ≡ 400
unfolding post_booking create_booking_action auth_middleware check_account validate_request
    validate_parts create_reservation find_slot commit_reservation reserve_seats create_booking
    adjust_slot_reserved update_slots append_status_history to_booking_summary send_success
    send_error
none_refused = refl

unknown_refused :
    status_of (post_booking crypto fixed_point schema as_body draw none (request 4) world) ≡ 401
unfolding post_booking create_booking_action auth_middleware check_account validate_request
    validate_parts create_reservation find_slot commit_reservation reserve_seats create_booking
    adjust_slot_reserved update_slots append_status_history to_booking_summary send_success
    send_error
unknown_refused = refl

post_booking_sound_example :
    IsAnswer crypto fixed_point schema as_body draw
      (some "Bearer jwt")
      (request 4)
      world
      (post_booking crypto fixed_point schema as_body draw (some "Bearer jwt") (request 4) world)
post_booking_sound_example =
    post_booking_sound crypto fixed_point schema as_body draw (some "Bearer jwt") (request 4) world
      schema_party

-- A log at level `warn`.
quiet :
    should_log (configured_level (λ s. s) (some "warn")) (completed_level 200 "/bookings") ≡ false
quiet = refl
