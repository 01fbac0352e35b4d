-- ===== src/Auth/Platform.antt =====
-- What the authentication service calls and does not implement: the drivers of Redis and MongoDB,
-- bcrypt, the token library, identifiers, the clock, randomness and the identity providers. Each
-- is a field, over an abstract state `W` of all that lies outside the program.
use re_master.Prelude.{ℕ, String, Bool, Option, List}
use re_master.Errors.Types.{Error}
use re_master.Exec.{Result, Exec}
use re_master.Auth.Models.{User, RefreshToken, GoTime}
use re_master.Redis.{Redis}

-- The filters and update documents that the repository writes.
pub data UserFilter : Type 0 where
  by_email : String → UserFilter
  by_id : ℕ → UserFilter

pub data UserChange : Type 0 where
  set_last_login_at : ℕ → UserChange
  set_last_login_ip : String → UserChange
  set_locked_until : ℕ → UserChange
  unset_locked_until : UserChange
  set_password : String → UserChange
  set_login_attempts : ℕ → UserChange
  inc_login_attempts : ℕ → UserChange

-- `CustomClaims` of utils/jwt.go. `expires_at` is the struct's own field, and hides the field of
-- the same name of the embedded `RegisteredClaims`, here `registered_expires_at`.
pub record Claims : Type 0 where
  pub user_id : String
  pub email : String
  pub user_type : String
  pub expires_at : GoTime
  pub registered_expires_at : GoTime
  pub issued_at : GoTime

-- A `*jwt.Token`: its claims, none if they are not `*CustomClaims`, and its field `Valid`.
pub record ParsedToken : Type 0 where
  pub claims : Option Claims
  pub valid : Bool

-- cache/refresh_token_store.go; it goes through `json.Marshal` and `json.Unmarshal`.
pub record RefreshTokenData : Type 0 where
  pub user_id : String
  pub token : String
  pub expires_at : ℕ
  pub created_at : ℕ

-- The claims of an identity token: a string, or a value that is none.
pub data ClaimValue : Type 0 where
  string : String → ClaimValue
  other_value : ClaimValue

pub record FacebookUser : Type 0 where
  pub email : String
  pub first_name : String
  pub last_name : String
  pub picture_url : String

pub record WebResponse : Type 0 where
  pub status_code : ℕ
  pub body : String

pub record Platform (W : Type 0) : Type 0 where
  pub redis : Redis W
  pub now : W → ℕ × W
  pub new_object_id : W → ℕ × W
  pub hex : ℕ → String
  pub object_id_from_hex : String → Result ℕ
  pub library_text : Error → String
  -- the collections "users" and "refresh_tokens"
  pub create_email_index : Exec W (Unit {0})
  pub users_insert_one : User → Exec W (Unit {0})
  pub users_find_one : UserFilter → Exec W User
  pub users_update_one : UserFilter → List UserChange → Exec W (Unit {0})
  pub users_find_one_and_update : UserFilter → List UserChange → Exec W User
  pub tokens_insert_one : RefreshToken → Exec W (Unit {0})
  pub tokens_find_one : String → Exec W RefreshToken
  pub tokens_set_revoked : ℕ → Exec W (Unit {0})
  -- `backoff.Retry` with the number of retries, over the user that the operation writes to
  pub retry :
      ℕ → (User × W → Result (Unit {0}) × (User × W)) → User × W → Result (Unit {0}) × (User × W)
  pub bcrypt_generate : String → ℕ → Exec W String
  pub bcrypt_compare : String → String → Result (Unit {0})
  pub rand_read : ℕ → Exec W (List ℕ)
  pub jwt_sign : String → Claims → Result String
  pub jwt_parse : String → String → Exec W ParsedToken
  pub parse_address : String → Bool
  pub marshal : RefreshTokenData → Result String
  pub unmarshal : String → Result RefreshTokenData
  pub idtoken_validate : String → String → Exec W (List (String × ClaimValue))
  pub http_get : String → Exec W WebResponse
  pub decode_debug : String → Result Bool
  pub decode_user : String → Result FacebookUser
