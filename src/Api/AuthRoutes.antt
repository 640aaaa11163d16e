-- ===== src/Api/AuthRoutes.antt =====
-- src/routes/auth.routes.ts
use booking_availability_pla.Shared.{ℕ, String, Option}
use booking_availability_pla.Service.{World, ◌>>=◌}
use booking_availability_pla.Auth.Tokens.{Crypto, AuthEnv}
use booking_availability_pla.Auth.Sessions.{
  AuthTokens, PublicUser, SessionDraw, login, refresh_access_token, logout, get_current_user,
}
use booking_availability_pla.Auth.Guards.{auth_middleware}
use booking_availability_pla.Api.Responses.{Response, respond}
use booking_availability_pla.Api.Validation.{Parsed, Request, validate_request}
use booking_availability_pla.Api.Routes.{ok_status, body_schema}

module _ {V : Type 0} (crypto : Crypto) (env : AuthEnv) where
  abbrev pub post_login :
      (V → Parsed V)
      → (V → String × String × String)
      → SessionDraw
      → Request V
      → World
      → Response (AuthTokens × PublicUser) × World
  post_login schema as_login draw req w = respond ok_status (
      (do
        checked ← validate_request (body_schema schema) req
        login crypto env draw (as_login checked.body).0 (as_login checked.body).1
            (as_login checked.body).2)
        w)

  abbrev pub post_refresh :
      (V → Parsed V) → (V → String) → SessionDraw → Request V → World → Response AuthTokens × World
  post_refresh schema as_token draw req w = respond ok_status (
      (do
        checked ← validate_request (body_schema schema) req
        refresh_access_token crypto env draw (as_token checked.body))
        w)

  abbrev pub post_logout :
      (V → Parsed V) → (V → String) → ℕ → Request V → World → Response (Unit {0}) × World
  post_logout schema as_token now req w = respond ok_status (
      (do
        checked ← validate_request (body_schema schema) req
        logout crypto env now (as_token checked.body))
        w)

abbrev pub get_me : Crypto → AuthEnv → ℕ → Option String → World → Response PublicUser × World
get_me crypto env now header w =
    respond ok_status
      ((do user ← auth_middleware crypto now header; get_current_user crypto env user.id) w)
