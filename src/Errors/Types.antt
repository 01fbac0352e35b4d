-- ===== src/Errors/Types.antt =====
-- shared/errors/types.go: error values, the application error and its factories.
use re_master.Prelude.{ℕ, String, List, []}
use re_master.Prelude.Maps.{Map}

-- `ErrorType` is an `int`: `other_type` stands for a value that is none of the constants.
pub data ErrorType : Type 0 where
  validation not_found conflict unauthorized forbidden bad_request : ErrorType
  rate_limit internal database other_type : ErrorType

-- `codes.Code` is a `uint32`: `other_code` stands for a value that is none of the constants.
pub data Code : Type 0 where
  ok_code canceled unknown invalid_argument deadline_exceeded not_found_code : Code
  already_exists permission_denied resource_exhausted failed_precondition aborted : Code
  out_of_range unimplemented internal_code unavailable data_loss unauthenticated : Code
  other_code : Code

-- An error value; a nil `Cause` is `no_cause`. `plain` is `errors.New` or `fmt.Errorf` with no
-- `%w`, `wrapped` is `fmt.Errorf("p: %w", e)`; the others are values of the libraries' packages:
-- `mongo.ErrNoDocuments`, `redis.Nil`, the two error types of the database driver that carry
-- server codes, and what `status.Error` builds of a code and a message.
mutual
  pub data Error : Type 0 where
    plain : String → Error
    wrapped : String → Error → Error
    app : ErrorType → String → String → Cause → ℕ → List (String × String) → Error
    no_documents : Error
    redis_nil : Error
    write_exception : List ℕ → Error
    command_error : ℕ → Error
    grpc_status : Code → String → Error

  pub data Cause : Type 0 where
    no_cause : Cause
    caused : Error → Cause

-- The struct that the error `app` points to.
pub record AppError : Type 0 where
  pub type : ErrorType
  pub code : String
  pub message : String
  pub cause : Cause
  pub status_code : ℕ
  pub details : Map String

-- A `*AppError` as an `error`.
abbrev pub to_error : AppError → Error
to_error e = app e.type e.code e.message e.cause e.status_code e.details

pub new_app_error : ErrorType → String → String → ℕ → Cause → Map String → AppError
new_app_error err_type code msg status cause details = record {
  type = err_type;
  code = code;
  message = msg;
  cause = cause;
  status_code = status;
  details = details;
}

unfoldable pub new_validation_error : String → Map String → AppError
unfolding new_app_error
new_validation_error msg details =
    new_app_error validation "VALIDATION_ERROR" msg 400 no_cause details

unfoldable pub new_conflict_error : String → Cause → AppError
unfolding new_app_error
new_conflict_error msg cause = new_app_error conflict "CONFLICT_ERROR" msg 409 cause []

unfoldable pub new_database_error : String → Cause → AppError
unfolding new_app_error
new_database_error msg cause = new_app_error database "DATABASE_ERROR" msg 500 cause []

unfoldable pub new_internal_error : String → Cause → AppError
unfolding new_app_error
new_internal_error msg cause = new_app_error internal "INTERNAL_ERROR" msg 500 cause []

-- The cause that is passed in is not kept.
unfoldable pub new_not_found_error : String → Cause → AppError
unfolding new_app_error
new_not_found_error msg cause = new_app_error not_found "NOT_FOUND" msg 404 no_cause []

unfoldable pub new_unauthorized_error : String → AppError
unfolding new_app_error
new_unauthorized_error msg = new_app_error unauthorized "UNAUTHORIZED" msg 401 no_cause []

unfoldable pub new_forbidden_error : String → AppError
unfolding new_app_error
new_forbidden_error msg = new_app_error forbidden "FORBIDDEN" msg 403 no_cause []

unfoldable pub new_bad_request_error : String → AppError
unfolding new_app_error
new_bad_request_error msg = new_app_error bad_request "BAD_REQUEST" msg 400 no_cause []

unfoldable pub new_rate_limit_error : String → AppError
unfolding new_app_error
new_rate_limit_error msg = new_app_error rate_limit "RATE_LIMIT_EXCEEDED" msg 429 no_cause []

unfoldable pub new_permission_error : String → AppError
unfolding new_app_error
new_permission_error msg = new_app_error forbidden "PERMISSION_ERROR" msg 403 no_cause []

unfoldable pub new_too_many_requests_error : String → AppError
unfolding new_app_error
new_too_many_requests_error msg = new_app_error rate_limit "TOO_MANY_REQUESTS" msg 429 no_cause []
