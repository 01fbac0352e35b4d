-- ===== src/Errors/Mapping.antt =====
-- The mappings of shared/errors/types.go: `String`, `ToGrpcCode`, `GrpcToHTTP`.
pub mod RoundTrip
use re_master.Prelude.{ℕ, String}
use re_master.Errors.Types.{
  ErrorType, validation, not_found, conflict, unauthorized, forbidden, bad_request, rate_limit,
  internal, database, other_type, Code, ok_code, canceled, unknown, invalid_argument,
  deadline_exceeded, not_found_code, already_exists, permission_denied, resource_exhausted,
  failed_precondition, aborted, out_of_range, unimplemented, internal_code, unavailable, data_loss,
  unauthenticated, other_code,
}

unfoldable pub type_string : ErrorType → String
type_string validation = "validation"
type_string not_found = "not_found"
type_string conflict = "conflict"
type_string unauthorized = "unauthorized"
type_string forbidden = "forbidden"
type_string bad_request = "bad_request"
type_string rate_limit = "rate_limit"
type_string internal = "internal"
type_string database = "database"
type_string other_type = "unknown"

unfoldable pub to_grpc_code : ErrorType → Code
to_grpc_code conflict = already_exists
to_grpc_code not_found = not_found_code
to_grpc_code validation = invalid_argument
to_grpc_code bad_request = invalid_argument
to_grpc_code unauthorized = unauthenticated
to_grpc_code forbidden = permission_denied
to_grpc_code rate_limit = resource_exhausted
to_grpc_code database = internal_code
to_grpc_code internal = internal_code
to_grpc_code other_type = internal_code

unfoldable pub grpc_to_http : Code → ℕ
grpc_to_http ok_code = 200
grpc_to_http canceled = 408
grpc_to_http invalid_argument = 400
grpc_to_http failed_precondition = 400
grpc_to_http out_of_range = 400
grpc_to_http deadline_exceeded = 504
grpc_to_http not_found_code = 404
grpc_to_http already_exists = 409
grpc_to_http aborted = 409
grpc_to_http permission_denied = 403
grpc_to_http resource_exhausted = 429
grpc_to_http unimplemented = 501
grpc_to_http internal_code = 500
grpc_to_http data_loss = 500
grpc_to_http unknown = 500
grpc_to_http unavailable = 503
grpc_to_http unauthenticated = 401
grpc_to_http other_code = 500
