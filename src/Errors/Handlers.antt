-- ===== src/Errors/Handlers.antt =====
-- shared/errors/handlers.go: what is sent to the client for an error, over HTTP and over gRPC, and
-- the level at which it is logged. The log records themselves are not modelled.
pub mod EndToEnd
pub mod Details
use re_master.Prelude.{
  ℕ, String, Bool, true, false, ◌||◌, Option, none, some, List, [], ◌∷◌, ◌==◌, leb, is_empty,
  if◌then◌else◌,
}
use re_master.Prelude.Maps.{Map, insert}
use re_master.Errors.Types.{
  ErrorType, internal, database, Error, grpc_status, AppError, Code, internal_code,
}
use re_master.Errors.Chain.{as_app_error, assert_app_error}
use re_master.Errors.Mapping.{to_grpc_code, grpc_to_http}

pub data LogLevel : Type 0 where
  debug_level info_level warn_level error_level : LogLevel

-- A value of the response's `details` object: a text, or the violations of a bad request.
pub data DetailValue : Type 0 where
  text : String → DetailValue
  violations : Map String → DetailValue

-- The JSON body `ErrorResponse`; `Success` is false in every one. `details` is none where the
-- field is left out.
pub record ErrorResponse : Type 0 where
  pub error : String
  pub code : String
  pub details : Option (Map DetailValue)

-- A JSON response, with the level of the record that was logged for it.
pub record HttpResponse : Type 0 where
  pub status : ℕ
  pub body : ErrorResponse
  pub level : LogLevel

-- The details that a gRPC status carries. Of each kind, what the handler reads.
pub data StatusDetail : Type 0 where
  error_info : String → Map String → StatusDetail
  bad_request_info : List (String × String) → StatusDetail
  resource_info : String → String → StatusDetail
  other_detail : StatusDetail

-- What `status.FromError` returns.
pub record Status : Type 0 where
  pub code : Code
  pub message : String
  pub details : List StatusDetail

abbrev pub text_map : Map String → Map DetailValue
text_map [] = []
text_map ((k, v) ∷ m) = (k, text v) ∷ text_map m

abbrev unknown_response : HttpResponse
unknown_response = record {
  status = 500;
  body = record { error = "Internal server error"; code = "INTERNAL_ERROR"; details = none };
  level = error_level;
}

-- The level chosen by `logError` for an `AppError`.
unfoldable pub app_error_level : ErrorType → LogLevel
app_error_level internal = error_level
app_error_level database = error_level
app_error_level _ = warn_level

abbrev app_response : LogLevel → AppError → HttpResponse
app_response level e = record {
  status = e.status_code;
  body = record { error = e.message; code = e.code; details = some (text_map e.details) };
  level = level;
}

abbrev gin_response : Option AppError → HttpResponse
gin_response none = unknown_response
gin_response (some e) = app_response (app_error_level e.type) e

unfoldable pub handle_gin_error : Error → HttpResponse
unfolding app_error_level
handle_gin_error err = gin_response (assert_app_error err)

abbrev grpc_error : Option AppError → Error
grpc_error none = grpc_status internal_code "Internal server error"
grpc_error (some e) = grpc_status (to_grpc_code e.type) e.message

unfoldable pub handle_grpc_error : Error → Error
unfolding as_app_error
handle_grpc_error err = grpc_error (as_app_error err)

-- `logError` asserts the outermost error, also where the response is that of a wrapped one.
abbrev logged_level : Option AppError → LogLevel
logged_level none = error_level
logged_level (some e) = app_error_level e.type

abbrev http_response : Option AppError → LogLevel → HttpResponse
http_response none level = unknown_response
http_response (some e) level = app_response level e

unfoldable pub handle_http_error : Error → HttpResponse
unfolding as_app_error app_error_level
handle_http_error err = http_response (as_app_error err) (logged_level (assert_app_error err))

-- `for k, v := range info.Metadata { details[k] = v }`
unfoldable pub add_metadata : Map String → Map DetailValue → Map DetailValue
add_metadata [] details = details
add_metadata ((k, v) ∷ m) details = add_metadata m (insert k (text v) details)

-- The map of a bad request's field violations: a later violation of a field replaces an earlier.
unfoldable pub violation_map : Map String → List (String × String) → Map String
violation_map acc [] = acc
violation_map acc ((field, description) ∷ vs) = violation_map (insert field description acc) vs

abbrev add_violations : Map String → Map DetailValue → Map DetailValue
add_violations [] details = details
add_violations (v ∷ vs) details = insert "field_violations" (violations (v ∷ vs)) details

-- One round of the loop over `st.Details()`, on the response code and the details.
unfoldable pub add_detail : StatusDetail → String × Map DetailValue → String × Map DetailValue
unfolding add_metadata violation_map
add_detail (error_info reason metadata) (code, details) =
    (if reason == "" then code else reason, add_metadata metadata details)
add_detail (bad_request_info vs) (code, details) =
    (code, add_violations (violation_map [] vs) details)
add_detail (resource_info type name) (code, details) =
    (code, insert "resource_name" (text name) (insert "resource_type" (text type) details))
add_detail other_detail (code, details) = (code, details)

unfoldable pub add_details : List StatusDetail → String × Map DetailValue → String × Map DetailValue
unfolding add_detail
add_details [] acc = acc
add_details (d ∷ ds) acc = add_details ds (add_detail d acc)

abbrev omit_empty : Map DetailValue → Option (Map DetailValue)
omit_empty [] = none
omit_empty (d ∷ ds) = some (d ∷ ds)

unfoldable pub status_level : ℕ → LogLevel
status_level status =
    if leb 500 status then error_level else if leb 400 status then warn_level else info_level

abbrev status_response : (Code → String) → Option Status → HttpResponse
status_response code_string none = unknown_response
status_response code_string (some st) =
    let (code, details) = add_details st.details (code_string st.code, []) in
    record {
      status = grpc_to_http st.code;
      body = record { error = st.message; code = code; details = omit_empty details };
      level = status_level (grpc_to_http st.code);
    }

-- `from_error` is `status.FromError`, with none for a false `ok`; `code_string` is the method
-- `String` of `codes.Code`.
unfoldable pub handle_grpc_to_http :
    (Error → Option Status) → (Code → String) → Error → HttpResponse
unfolding add_details status_level
handle_grpc_to_http from_error code_string err = status_response code_string (from_error err)
