-- ===== src/Gateway/Context.antt =====
-- What the gateway calls and does not implement: gin's request context, the client of the
-- authentication service (generated code), the decoding of a request's body, and new UUIDs. `C` is
-- the request's context together with all that lies outside the program.
use re_master.Prelude.{ℕ, String, Bool, Option, List}
use re_master.Prelude.Maps.{Map}
use re_master.Errors.Types.{Error}
use re_master.Errors.Handlers.{HttpResponse}
use re_master.Exec.{Exec}
use re_master.Auth.Proto as Pb
use re_master.Gateway.Models.{
  RegisterDto, LoginDto, OauthTokenRequest, RefreshDto, ValidateDto, PasswordDto, Payload,
}

-- A value in a context: a string, or a value that is none.
pub data KeyValue : Type 0 where
  string_value : String → KeyValue
  other_value : KeyValue

-- `ServiceHealth` and `HealthStatus` of server/routes.go.
pub record ServiceHealth : Type 0 where
  pub status : String
  pub healthy : Bool
  pub message : String

pub record HealthStatus : Type 0 where
  pub status : String
  pub healthy : Bool
  pub services : Map String
  pub details : Map ServiceHealth
  pub timestamp : ℕ
  pub version : String

-- What is passed to `c.JSON`: an error response with its status, `SuccessResponse` of
-- utils/helpers.go with status 200, or the report on the services with its status.
pub data Reply : Type 0 where
  failure : HttpResponse → Reply
  success : String → Payload → Reply
  health_report : ℕ → HealthStatus → Reply

pub record Gin (C : Type 0) : Type 0 where
  pub method : C → String
  pub path : C → String
  pub client_ip : C → String
  pub get_header : String → C → String
  pub set_header : String → String → C → C
  pub get : String → C → Option KeyValue
  pub set : String → KeyValue → C → C
  -- `c.Error(err)`
  pub add_error : Error → C → C
  -- `c.Errors`, each with its field `Err`.
  pub errors : C → List Error
  pub abort : C → C
  pub abort_with_status : ℕ → C → C
  pub json : Reply → C → C
  -- `c.Writer.Written()`
  pub written : C → Bool
  pub new_uuid : C → String × C

-- `c.ShouldBindJSON`, which also checks the `binding` tags of the type.
pub record Binding (C : Type 0) : Type 0 where
  pub bind_register : Exec C RegisterDto
  pub bind_login : Exec C LoginDto
  pub bind_oauth : Exec C OauthTokenRequest
  pub bind_refresh : Exec C RefreshDto
  pub bind_validate : Exec C ValidateDto
  pub bind_password : Exec C PasswordDto

pub record AuthClient (C : Type 0) : Type 0 where
  pub registration : Pb.RegisterRequest → Exec C Pb.RegisterResponse
  pub login : Pb.LoginRequest → Exec C Pb.LoginResponse
  pub oauth_login : Pb.OauthLoginRequest → Exec C Pb.OauthLoginResponse
  pub refresh_token : Pb.RefreshTokenRequest → Exec C Pb.RefreshTokenResponse
  pub validate_token : Pb.ValidateTokenRequest → Exec C Pb.ValidateTokenResponse
  pub logout : Pb.LogoutRequest → Exec C Pb.LogoutResponse
  pub change_password : Pb.ChangePasswordRequest → Exec C Pb.ChangePasswordResponse
  pub health : Exec C Pb.HealthResponse
