-- ===== src/Gateway/Models.antt =====
-- services/api-gateway/models/auth.go, and the requests that services/api-gateway/handlers/auth.go
-- declares in its functions.
use re_master.Prelude.{String, Bool}
use re_master.Prelude.Int.{ℤ}
use re_master.Prelude.Maps.{Map}

pub record RegisterDto : Type 0 where
  pub email : String
  pub password : String
  pub first_name : String
  pub last_name : String
  pub phone : String
  pub user_type : String

pub record LoginDto : Type 0 where
  pub email : String
  pub password : String

pub record OauthTokenRequest : Type 0 where
  pub provider : String
  pub id_token : String

pub record RefreshDto : Type 0 where
  pub refresh_token : String

pub record ValidateDto : Type 0 where
  pub access_token : String

pub record PasswordDto : Type 0 where
  pub user_id : String
  pub old_password : String
  pub new_password : String

pub record AuthResponse : Type 0 where
  pub user_id : String
  pub access_token : String
  pub refresh_token : String
  pub expires_at : ℤ
  pub user_type : String

pub record RefreshTokenResponse : Type 0 where
  pub success : Bool
  pub message : String
  pub access_token : String
  pub refresh_token : String
  pub expires_at : ℤ

pub record ValidateTokenResponse : Type 0 where
  pub valid : Bool
  pub user_id : String
  pub user_type : String
  pub expires_at : ℤ

pub record HealthResponse : Type 0 where
  pub status : String
  pub timestamp : ℤ
  pub checks : Map String

-- What stands under `data` in an answer; `no_data` is a nil.
pub data Payload : Type 0 where
  auth_data : AuthResponse → Payload
  refresh_data : RefreshTokenResponse → Payload
  validate_data : ValidateTokenResponse → Payload
  health_data : HealthResponse → Payload
  no_data : Payload
