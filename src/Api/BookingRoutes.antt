-- ===== src/Api/BookingRoutes.antt =====
-- src/routes/bookings.routes.ts
use booking_availability_pla.Shared.{ℕ, String, Option, none, some}
use booking_availability_pla.Service.{World, Action, ◌>>=◌}
use booking_availability_pla.Pricing.Numbers.{Numeric}
use booking_availability_pla.Booking.Views.{BookingSummary, BookingDetailResult, get_booking_detail}
use booking_availability_pla.Booking.Reserve.{Draw, CreateBookingBody, create_reservation}
use booking_availability_pla.Booking.Confirm.{confirm_reservation}
use booking_availability_pla.Booking.Cancel.{cancel_reservation}
use booking_availability_pla.Auth.Tokens.{Crypto}
use booking_availability_pla.Auth.Guards.{auth_middleware}
use booking_availability_pla.Api.Responses.{Response, respond}
use booking_availability_pla.Api.Validation.{Parsed, Request, validate_request}
use booking_availability_pla.Api.Routes.{
  validated, ok_status, created_status, body_schema, params_schema,
}

module _ {V : Type 0} (crypto : Crypto) where
  unfoldable pub create_booking_action :
      Numeric
      → (V → Parsed V)
      → (V → CreateBookingBody)
      → Draw
      → Option String
      → Request V
      → Action BookingSummary
  create_booking_action num schema as_body draw header req = do
    user ← auth_middleware crypto draw.now header
    checked ← validate_request (body_schema schema) req
    body ← validated checked.validated_body
    create_reservation num draw user.tenant_id user.id (as_body body)

  unfoldable pub post_booking :
      Numeric
      → (V → Parsed V)
      → (V → CreateBookingBody)
      → Draw
      → Option String
      → Request V
      → World
      → Response BookingSummary × World
  post_booking num schema as_body draw header req w =
      respond created_status (create_booking_action num schema as_body draw header req w)

  unfoldable pub confirm_booking_action :
      (V → Parsed V) → (V → String) → ℕ → Option String → Request V → Action BookingSummary
  confirm_booking_action schema as_ref now header req = do
    user ← auth_middleware crypto now header
    checked ← validate_request (params_schema schema) req
    params ← validated checked.validated_params
    confirm_reservation now user.tenant_id user.id (as_ref params)

  abbrev pub confirm_booking :
      (V → Parsed V)
      → (V → String)
      → ℕ
      → Option String
      → Request V
      → World
      → Response BookingSummary × World
  confirm_booking schema as_ref now header req w =
      respond ok_status (confirm_booking_action schema as_ref now header req w)

  abbrev pub get_booking :
      (V → Parsed V)
      → (V → String)
      → ℕ
      → Option String
      → Request V
      → World
      → Response BookingDetailResult × World
  get_booking schema as_ref now header req w = respond ok_status (
      (do
        user ← auth_middleware crypto now header
        checked ← validate_request (params_schema schema) req
        params ← validated checked.validated_params
        get_booking_detail user.tenant_id user.id (as_ref params))
        w)

  unfoldable pub delete_booking_action :
      (V → Parsed V)
      → (V → Parsed V)
      → (V → String)
      → (V → String)
      → ℕ
      → Option String
      → Request V
      → Action BookingSummary
  delete_booking_action params_of body_of as_ref as_reason now header req = do
    user ← auth_middleware crypto now header
    checked ←
        validate_request (record { body = some body_of; query = none; params = some params_of }) req
    params ← validated checked.validated_params
    body ← validated checked.validated_body
    cancel_reservation now user.tenant_id user.id (as_ref params) (as_reason body)

  abbrev pub delete_booking :
      (V → Parsed V)
      → (V → Parsed V)
      → (V → String)
      → (V → String)
      → ℕ
      → Option String
      → Request V
      → World
      → Response BookingSummary × World
  delete_booking params_of body_of as_ref as_reason now header req w =
      respond ok_status (delete_booking_action params_of body_of as_ref as_reason now header req w)
