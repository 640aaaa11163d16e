-- ===== src/Errors.antt =====
-- The error classes of src/errors/app-error.ts and src/errors/http-errors.ts, as values. A thrown
-- value that is no `AppError`, such as an error of the database driver, is `other`.
use booking_availability_pla.Shared.{ℕ, String, Option, none, List}

pub record AppError : Type 0 where
  pub status_code : ℕ
  pub code : String
  pub message : String
  pub details : Option (List (String × String))

pub data Failure : Type 0 where
  app : AppError → Failure
  other : String → Failure

abbrev DetailsType : Type 0
DetailsType = Option (List (String × String))

abbrev pub bad_request_error : String → DetailsType → AppError
bad_request_error message details = record {
  status_code = 400;
  code = "BAD_REQUEST";
  message = message;
  details = details;
}

abbrev pub unauthorized_error : String → AppError
unauthorized_error message = record {
  status_code = 401;
  code = "UNAUTHORIZED";
  message = message;
  details = none;
}

abbrev pub forbidden_error : String → AppError
forbidden_error message = record {
  status_code = 403;
  code = "FORBIDDEN";
  message = message;
  details = none;
}

abbrev pub not_found_error : String → AppError
not_found_error message = record {
  status_code = 404;
  code = "NOT_FOUND";
  message = message;
  details = none;
}

abbrev pub conflict_error : String → AppError
conflict_error message = record {
  status_code = 409;
  code = "CONFLICT";
  message = message;
  details = none;
}

-- With its default message.
abbrev pub internal_server_error : AppError
internal_server_error = record {
  status_code = 500;
  code = "INTERNAL_SERVER_ERROR";
  message = "Internal server error";
  details = none;
}

abbrev pub service_unavailable_error : String → DetailsType → AppError
service_unavailable_error message details = record {
  status_code = 503;
  code = "SERVICE_UNAVAILABLE";
  message = message;
  details = details;
}
