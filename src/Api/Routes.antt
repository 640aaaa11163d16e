-- ===== src/Api/Routes.antt =====
-- What the files of src/routes share: the guards and the reading of a request. A schema is a parameter, and so
-- is the view of what it gives as the type that a handler expects (`as CreateBookingBody`).
use booking_availability_pla.Shared.{ℕ, String, Option, none, some, List}
use booking_availability_pla.Model.{UserRole}
use booking_availability_pla.Service.{Action, ◌>>=◌, ◌>>◌, pure, fault}
use booking_availability_pla.Auth.Tokens.{Crypto}
use booking_availability_pla.Auth.Guards.{AuthenticatedUser, auth_middleware, require_role}
use booking_availability_pla.Api.Validation.{Parsed, RequestSchemas}

-- `req.validated!.body`, where the `!` has nothing to say at run time.
abbrev pub validated : {V : Type 0} → Option V → Action V
validated none = fault "Cannot read properties of undefined"
validated (some v) = pure v

abbrev pub ok_status : {A : Type 0} → A → ℕ
ok_status a = 200

abbrev pub created_status : {A : Type 0} → A → ℕ
created_status a = 201

abbrev pub body_schema : {V : Type 0} → (V → Parsed V) → RequestSchemas V
body_schema schema = record { body = some schema; query = none; params = none }

abbrev pub query_schema : {V : Type 0} → (V → Parsed V) → RequestSchemas V
query_schema schema = record { body = none; query = some schema; params = none }

abbrev pub params_schema : {V : Type 0} → (V → Parsed V) → RequestSchemas V
params_schema schema = record { body = none; query = none; params = some schema }

-- A guard for a role, behind the guard for a session.
abbrev pub with_role : Crypto → List UserRole → ℕ → Option String → Action AuthenticatedUser
with_role crypto roles now header = do
  user ← auth_middleware crypto now header
  require_role roles (some user)
  pure user
