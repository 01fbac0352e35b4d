-- ===== src/Auth/Models.antt =====
-- services/auth/models/auth.go. An identifier is the twelve bytes of an `ObjectID` as one number,
-- a time is in nanoseconds since 1970, and a nil pointer is `none`.
pub mod Laws
use re_master.Prelude.{
  ℕ, ◌/◌, ◌^◌, String, len, Bool, true, false, not, ◌&&◌, ◌||◌, Option, none, some, List, [], ◌∷◌,
  ◌++◌, ◌==◌, ltb, nat_eq, if◌then◌else◌,
}
use re_master.Prelude.Int.{ℤ, pos, negsuc}
use re_master.Prelude.Text.{join, trim_space}
use re_master.Errors.Types.{plain}
use re_master.Exec.{Result, ok, err}

abbrev pub user_type_client : String
user_type_client = "client"

abbrev pub user_type_master : String
user_type_master = "master"

pub record User : Type 0 where
  pub id : ℕ
  pub email : String
  pub password : String
  pub first_name : String
  pub last_name : String
  pub phone : String
  pub user_type : String
  pub google_id : String
  pub google_email : String
  pub profile_image : String
  pub is_active : Bool
  pub is_verified : Bool
  pub created_at : ℕ
  pub updated_at : ℕ
  pub last_login_at : Option ℕ
  pub email_verified_at : Option ℕ
  pub login_attempts : ℕ
  pub last_login_ip : String
  pub password_change_at : ℕ
  pub locked_until : Option ℕ

pub record UserResponse : Type 0 where
  pub id : String
  pub email : String
  pub first_name : String
  pub last_name : String
  pub phone : String
  pub user_type : String
  pub profile_image : String
  pub is_active : Bool
  pub is_verified : Bool
  pub created_at : ℕ
  pub last_login_at : Option ℕ

pub record RefreshToken : Type 0 where
  pub id : ℕ
  pub user_id : ℕ
  pub token : String
  pub expires_at : ℕ
  pub created_at : ℕ
  pub is_revoked : Bool
  pub device_id : String
  pub user_agent : String
  pub ip : String

pub record RefreshTokenResponse : Type 0 where
  pub success : Bool
  pub message : String
  pub access_token : String
  pub refresh_token : String
  pub expires_at : ℤ
  pub token_type : String

pub record ValidateTokenResponse : Type 0 where
  pub valid : Bool
  pub user_id : String
  pub user_type : String
  pub is_active : Bool
  pub is_verified : Bool
  pub expires_at : ℤ

pub record RegisterRequest : Type 0 where
  pub email : String
  pub password : String
  pub first_name : String
  pub last_name : String
  pub phone : String
  pub user_type : String

pub record LoginRequest : Type 0 where
  pub email : String
  pub password : String

pub record OauthLoginRequest : Type 0 where
  pub provider : String
  pub id_token : String

pub record ChangePasswordRequest : Type 0 where
  pub user_id : String
  pub old_password : String
  pub new_password : String

pub record AuthResponse : Type 0 where
  pub user : UserResponse
  pub access_token : String
  pub refresh_token : String
  pub expires_at : ℤ
  pub token_type : String

pub record LogoutRequest : Type 0 where
  pub user_id : String
  pub access_token : String
  pub refresh_token : String

pub record RequestMetadata : Type 0 where
  pub user_agent : String
  pub ip_address : String
  pub device_id : String

-- A `time.Time`: Go's zero value lies in the year 1, every other time here after 1970.
pub data GoTime : Type 0 where
  zero_time : GoTime
  at : ℕ → GoTime

-- `t.Unix()`, in seconds.
unfoldable pub unix : GoTime → ℤ
unix zero_time = negsuc 62135596799
unix (at t) = pos (t / 1000000000)

-- The method `Hex` of the identifier is the argument.
unfoldable pub to_response : (ℕ → String) → User → UserResponse
to_response hex u = record {
  id = hex u.id;
  email = u.email;
  first_name = u.first_name;
  last_name = u.last_name;
  phone = u.phone;
  user_type = u.user_type;
  profile_image = u.profile_image;
  is_active = u.is_active;
  is_verified = u.is_verified;
  created_at = u.created_at;
  last_login_at = u.last_login_at;
}

-- `BeforeCreate`; the new identifier is used only where the user has none.
unfoldable pub before_create : ℕ → ℕ → User → User
before_create now new_id u = record u {
  created_at = now;
  updated_at = now;
  password_change_at = now;
  is_active = true;
  is_verified = false;
  login_attempts = 0;
  id = if nat_eq u.id 0 then new_id else u.id;
}

unfoldable pub before_update : ℕ → User → User
before_update now u = record u { updated_at = now }

-- The test on each of the two names.
unfoldable pub bad_name : String → Bool
bad_name s = trim_space s == "" || ltb (len s) 2 || ltb 50 (len s)

-- `if test { errs = append(errs, message) }`
abbrev pub error_if : Bool → String → List String
error_if test message = if test then message ∷ [] else []

abbrev no_errors : List String → Result (Unit {0})
no_errors [] = ok tt
no_errors (e ∷ es) = err (plain (join ", " (e ∷ es)))

-- `parse_address` tells whether `mail.ParseAddress` returns no error.
unfoldable pub register_errors : (String → Bool) → RegisterRequest → List String
register_errors parse_address req =
    error_if (not (parse_address req.email)) "invalid email format"
    ++ (error_if (ltb (len req.password) 8) "password must be at least 8 characters long"
        ++ (error_if (bad_name req.first_name) "first name must be between 2 and 50 characters"
            ++ (error_if (bad_name req.last_name) "last name must be between 2 and 50 characters"
                ++ error_if
                    (not (req.user_type == user_type_master)
                      && not (req.user_type == user_type_client))
                    "invalid user type, must be 'client' or 'master'")))

unfoldable pub validate_register_request : (String → Bool) → RegisterRequest → Result (Unit {0})
unfolding register_errors bad_name
validate_register_request parse_address req = no_errors (register_errors parse_address req)
