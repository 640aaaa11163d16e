-- ===== src/Api/Responses.antt =====
-- Bodies and statuses of responses: src/http/response.ts. The time in `meta` is left out.
use booking_availability_pla.Shared.{ℕ, String, Option, none, some, List, leb, if◌then◌else◌}
use booking_availability_pla.Errors.{AppError, Failure, app, other, internal_server_error}
use booking_availability_pla.Service.{World, Result, ok, err}
use booking_availability_pla.Api.Logs.{LogLevel, warn, error}

-- The body of a failure.
pub record ApiError : Type 0 where
  pub code : String
  pub message : String
  pub details : Option (List (String × String))

pub data ApiBody (A : Type 0) : Type 0 where
  success_body : A → ApiBody A
  error_body : ApiError → ApiBody A

-- What is sent, and the level at which `sendError` logs it.
pub record Response (A : Type 0) : Type 0 where
  pub status_code : ℕ
  pub body : ApiBody A
  pub logged : Option LogLevel

abbrev pub build_error : AppError → ApiError
build_error e = record { code = e.code; message = e.message; details = e.details }

-- `error instanceof AppError ? error : new InternalServerError()`
abbrev pub to_app_error : Failure → AppError
to_app_error (app e) = e
to_app_error (other s) = internal_server_error

abbrev pub failure_level : Failure → LogLevel
failure_level (app e) = if leb 500 e.status_code then error else warn
failure_level (other s) = error

module _ {A : Type 0} where
  unfoldable pub send_success : ℕ → A → Response A
  send_success status_code data' = record {
    status_code = status_code;
    body = success_body data';
    logged = none;
  }

  unfoldable pub send_error : Failure → Response A
  send_error e = record {
    status_code = (to_app_error e).status_code;
    body = error_body (build_error (to_app_error e));
    logged = some (failure_level e);
  }

  -- `asyncHandler` and the error handler of src/app.ts: what is thrown goes to `sendError`.
  abbrev pub respond : (A → ℕ) → Result A × World → Response A × World
  respond status (ok a, w) = (send_success (status a) a, w)
  respond status (err e, w) = (send_error e, w)
