-- ===== src/Errors/Mapping/RoundTrip.antt =====
-- The status that a factory of shared/errors/types.go puts into an error, against the status that
-- the gateway derives from the error's gRPC code.
use re_master.Prelude.{String, ◌≡◌, refl}
use re_master.Prelude.Maps.{Map}
use re_master.Errors.Types.{
  Cause, AppError, new_validation_error, new_conflict_error, new_database_error, new_internal_error,
  new_not_found_error, new_unauthorized_error, new_forbidden_error, new_bad_request_error,
  new_rate_limit_error, new_permission_error, new_too_many_requests_error,
}
use re_master.Errors.Mapping.{to_grpc_code, grpc_to_http}

-- The errors that the factories make, but for the general `NewAppError`.
pub data IsMade : AppError → Type 0 where
  validation : (m : String) (d : Map String) → IsMade (new_validation_error m d)
  conflict : (m : String) (c : Cause) → IsMade (new_conflict_error m c)
  database : (m : String) (c : Cause) → IsMade (new_database_error m c)
  internal : (m : String) (c : Cause) → IsMade (new_internal_error m c)
  not_found : (m : String) (c : Cause) → IsMade (new_not_found_error m c)
  unauthorized : (m : String) → IsMade (new_unauthorized_error m)
  forbidden : (m : String) → IsMade (new_forbidden_error m)
  bad_request : (m : String) → IsMade (new_bad_request_error m)
  rate_limit : (m : String) → IsMade (new_rate_limit_error m)
  permission : (m : String) → IsMade (new_permission_error m)
  too_many_requests : (m : String) → IsMade (new_too_many_requests_error m)

-- The status of an error that a factory made is the one that its type has by way of gRPC.
pub status-IsMade : {e : AppError} → IsMade e → grpc_to_http (to_grpc_code e.type) ≡ e.status_code
unfolding grpc_to_http to_grpc_code new_validation_error new_conflict_error new_database_error
    new_internal_error new_not_found_error new_unauthorized_error new_forbidden_error
    new_bad_request_error new_rate_limit_error new_permission_error new_too_many_requests_error
status-IsMade (validation m d) = refl
status-IsMade (conflict m c) = refl
status-IsMade (database m c) = refl
status-IsMade (internal m c) = refl
status-IsMade (not_found m c) = refl
status-IsMade (unauthorized m) = refl
status-IsMade (forbidden m) = refl
status-IsMade (bad_request m) = refl
status-IsMade (rate_limit m) = refl
status-IsMade (permission m) = refl
status-IsMade (too_many_requests m) = refl
