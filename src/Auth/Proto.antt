-- ===== src/Auth/Proto.antt =====
-- The messages of the authentication service's RPCs, the structs of shared/proto/auth/auth.pb.go. A
-- timestamp is in nanoseconds, and none where the message has none.
use re_master.Prelude.{ℕ, String, Bool, Option}
use re_master.Prelude.Int.{ℤ}
use re_master.Prelude.Maps.{Map}

pub record RegisterRequest : Type 0 where
  pub email : String
  pub password : String
  pub first_name : String
  pub last_name : String
  pub phone : String
  pub user_type : String

pub record RegisterResponse : Type 0 where
  pub success : Bool
  pub message : String
  pub user_id : String
  pub access_token : String
  pub refresh_token : String
  pub expires_at : ℤ
  pub user_type : String
  pub is_active : Bool
  pub is_verified : Bool
  pub created_at : Option ℕ

pub record LoginRequest : Type 0 where
  pub email : String
  pub password : String

pub record LoginResponse : Type 0 where
  pub success : Bool
  pub message : String
  pub user_id : String
  pub access_token : String
  pub refresh_token : String
  pub expires_at : ℤ
  pub user_type : String
  pub is_active : Bool
  pub is_verified : Bool

pub record OauthLoginRequest : Type 0 where
  pub provider : String
  pub id_token : String

pub record OauthLoginResponse : Type 0 where
  pub success : Bool
  pub message : String
  pub user_id : String
  pub access_token : String
  pub refresh_token : String
  pub expires_at : ℤ
  pub user_type : String

pub record RefreshTokenRequest : Type 0 where
  pub refresh_token : String

pub record RefreshTokenResponse : Type 0 where
  pub success : Bool
  pub message : String
  pub access_token : String
  pub refresh_token : String
  pub expires_at : ℤ
  pub created_at : Option ℕ

pub record ValidateTokenRequest : Type 0 where
  pub access_token : String

pub record ValidateTokenResponse : Type 0 where
  pub valid : Bool
  pub user_id : String
  pub email : String
  pub user_type : String
  pub expires_at : ℤ
  pub message : String
  pub is_active : Bool
  pub is_verified : Bool
  pub last_login_at : Option ℕ

pub record LogoutRequest : Type 0 where
  pub refresh_token : String
  pub user_id : String

pub record LogoutResponse : Type 0 where
  pub success : Bool
  pub message : String

pub record ChangePasswordRequest : Type 0 where
  pub user_id : String
  pub old_password : String
  pub new_password : String

pub record ChangePasswordResponse : Type 0 where
  pub success : Bool
  pub message : String
  pub password_changed_at : Option ℕ

pub record HealthResponse : Type 0 where
  pub status : String
  pub timestamp : Option ℕ
  pub checks : Map String
