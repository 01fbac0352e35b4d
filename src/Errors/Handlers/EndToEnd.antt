-- ===== src/Errors/Handlers/EndToEnd.antt =====
-- The path of an application error from a service to the gateway's client (handlers.go), and the
-- two HTTP handlers side by side.
use re_master.Prelude.{String, ◌≡◌, ◌≢◌, refl, some, none, [], Option}
use re_master.Errors.Types.{
  Error, grpc_status, wrapped, AppError, ErrorType, Code, ok_code, internal_code,
}
use re_master.Errors.Types
use re_master.Errors.Chain.{as_app_error}
use re_master.Errors.Mapping.{to_grpc_code}
use re_master.Errors.Mapping.RoundTrip.{IsMade, status-IsMade}
use re_master.Errors.Handlers.{
  grpc_error, Status, handle_grpc_error, handle_grpc_to_http, handle_http_error, handle_gin_error,
}

-- What the library promises of `status.FromError`: it takes apart what `status.Error` built, for
-- every code but OK.
abbrev pub Decodes : (Error → Option Status) → Type 0
Decodes from_error =
    (c : Code) (m : String)
    → c ≢ ok_code
    → from_error (grpc_status c m) ≡ some (record { code = c; message = m; details = [] })

to_grpc_code-ne-ok : (t : ErrorType) → to_grpc_code t ≢ ok_code
unfolding to_grpc_code
to_grpc_code-ne-ok Types.validation = cc
to_grpc_code-ne-ok _ = cc

-- A status error whose code is not OK.
pub record IsStatus (e : Error) : Type 0 where
  pub code : Code
  pub message : String
  pub same : e ≡ grpc_status code message
  pub differs : code ≢ ok_code

grpc_error-IsStatus : (e : Option AppError) → IsStatus (grpc_error e)
grpc_error-IsStatus none = record {
  code = internal_code;
  message = "Internal server error";
  same = refl;
  differs = cc;
}
grpc_error-IsStatus (some e) = record {
  code = to_grpc_code e.type;
  message = e.message;
  same = refl;
  differs = to_grpc_code-ne-ok e.type;
}

pub handle_grpc_error-IsStatus : (err : Error) → IsStatus (handle_grpc_error err)
unfolding handle_grpc_error
handle_grpc_error-IsStatus err = grpc_error-IsStatus (as_app_error err)

-- If a service's error holds an application error that a factory made, and `status.FromError` takes
-- apart what `status.Error` builds, then the gateway answers
-- with the status and the message of that error, which are those that `HandleHttpError` would send,
-- and with no details.
pub end_to_end :
    (from_error : Error → Option Status) (code_string : Code → String)
    → Decodes from_error
    → (err : Error) {e : AppError} → as_app_error err ≡ some e
    → IsMade e
    → let answer = handle_grpc_to_http from_error code_string (handle_grpc_error err) in
      (answer.status ≡ e.status_code)
      × (answer.status ≡ (handle_http_error err).status)
      × (answer.body.error ≡ e.message)
      × (answer.body.error ≡ (handle_http_error err).body.error)
      × (answer.body.details ≡ none)
unfolding handle_grpc_to_http handle_grpc_error handle_http_error
end_to_end from_error code_string decodes err {e} held made =
    let decoded = decodes (to_grpc_code e.type) e.message (to_grpc_code-ne-ok e.type) in
    rw (held, decoded) (status-IsMade made, status-IsMade made, refl, refl, refl)

-- An application error below a `%w` wrapper is answered with its own status by `HandleHttpError`,
-- and with 500 and a fixed message by `HandleGinError`, whatever its status.
pub wrapped_differs :
    (p : String) (err : Error) {e : AppError}
    → as_app_error err ≡ some e
    → ((handle_http_error (wrapped p err)).status ≡ e.status_code)
      × ((handle_http_error (wrapped p err)).body.error ≡ e.message)
      × ((handle_gin_error (wrapped p err)).status ≡ 500)
      × ((handle_gin_error (wrapped p err)).body.error ≡ "Internal server error")
unfolding handle_http_error handle_gin_error
wrapped_differs p err held = rw held (refl, refl, refl, refl)
