-- ===== src/Api/AdminRoutes.antt =====
-- src/routes/admin.routes.ts and src/routes/webhooks.routes.ts
use booking_availability_pla.Shared.{ℕ, String, Option, List, [], ◌∷◌, if◌then◌else◌}
use booking_availability_pla.Model.{admin, travel_manager}
use booking_availability_pla.Service.{World, Action, ◌>>=◌}
use booking_availability_pla.Dates.{Calendar}
use booking_availability_pla.Auth.Tokens.{Crypto}
use booking_availability_pla.Webhooks.Delivery.{Net, HttpRequest, WebhookTestResult}
use booking_availability_pla.Webhooks.Registration.{
  WebhookDraw, WebhookRegistrationResult, register_webhook, send_test_webhook,
}
use booking_availability_pla.Listing.Bookings.{
  AdminBookingListQuery, AdminBookingListResult, list_tenant_bookings,
}
use booking_availability_pla.Listing.AuditLogs.{
  AuditLogListQuery, AuditLogListResult, list_audit_logs,
}
use booking_availability_pla.Api.Responses.{Response, respond}
use booking_availability_pla.Api.Validation.{Parsed, Request, validate_request}
use booking_availability_pla.Api.Routes.{validated, ok_status, body_schema, query_schema, with_role}

abbrev pub registered_status : WebhookRegistrationResult → ℕ
registered_status r = if r.created then 201 else 200

module _ {V : Type 0} (crypto : Crypto) where
  unfoldable pub list_bookings_action :
      Calendar
      → (V → Parsed V)
      → (V → AdminBookingListQuery)
      → ℕ
      → Option String
      → Request V
      → Action AdminBookingListResult
  list_bookings_action calendar schema as_query now header req = do
    user ← with_role crypto (admin ∷ travel_manager ∷ []) now header
    checked ← validate_request (query_schema schema) req
    query ← validated checked.validated_query
    list_tenant_bookings calendar user.tenant_id (as_query query)

  abbrev pub get_admin_bookings :
      Calendar
      → (V → Parsed V)
      → (V → AdminBookingListQuery)
      → ℕ
      → Option String
      → Request V
      → World
      → Response AdminBookingListResult × World
  get_admin_bookings calendar schema as_query now header req w =
      respond ok_status (list_bookings_action calendar schema as_query now header req w)

  abbrev pub get_audit_log :
      Calendar
      → (V → Parsed V)
      → (V → AuditLogListQuery)
      → ℕ
      → Option String
      → Request V
      → World
      → Response AuditLogListResult × World
  get_audit_log calendar schema as_query now header req w = respond ok_status (
      (do
        user ← with_role crypto (admin ∷ []) now header
        checked ← validate_request (query_schema schema) req
        query ← validated checked.validated_query
        list_audit_logs calendar user.tenant_id (as_query query))
        w)

  abbrev pub post_webhook :
      (V → Parsed V)
      → (V → String)
      → WebhookDraw
      → Option String
      → Request V
      → World
      → Response WebhookRegistrationResult × World
  post_webhook schema as_url draw header req w = respond registered_status (
      (do
        user ← with_role crypto (admin ∷ []) draw.now header
        checked ← validate_request (body_schema schema) req
        body ← validated checked.validated_body
        register_webhook draw user.tenant_id user.id (as_url body))
        w)

  abbrev pub post_webhook_test :
      Net
      → (V → Parsed V)
      → (V → Option (List (String × String)))
      → ℕ
      → ℕ
      → String
      → Option String
      → Request V
      → World
      → Response (HttpRequest × WebhookTestResult) × World
  post_webhook_test net schema as_data started finished event_id header req w = respond ok_status (
      (do
        user ← with_role crypto (admin ∷ []) started header
        checked ← validate_request (body_schema schema) req
        body ← validated checked.validated_body
        send_test_webhook net started finished event_id user.tenant_id (as_data body))
        w)
