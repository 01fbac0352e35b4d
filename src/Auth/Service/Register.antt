-- ===== src/Auth/Service/Register.antt =====
-- `CreateUser` of services/auth/services/service.go
pub mod Retry
pub mod FirstLogin
pub mod Laws
use re_master.Prelude.{
  ℕ, String, Bool, true, false, Option, none, some, List, [], ◌∷◌, if◌then◌else◌,
}
use re_master.Errors.Types.{
  Error, to_error, wrapped, caused, no_cause, new_validation_error, new_database_error,
  new_conflict_error, new_internal_error,
}
use re_master.Errors.Chain.{is_no_documents, as_app_error, message, is_some}
use re_master.Exec.{
  Result, ok, err, Exec, pure, raise, raise_app, lift, attempt, or_fail, ◌>>=◌, ◌>>◌,
}
use re_master.Auth.Models.{
  User, RefreshToken, RegisterRequest, RequestMetadata, AuthResponse, validate_register_request,
}
use re_master.Auth.Platform.{Platform}
use re_master.Auth.Jwt.{JwtUtils}
use re_master.Auth.Repository.{create, get_by_email, save_refresh_token}
use re_master.Auth.Service.Tokens.{generate_tokens, token_model, auth_response}

abbrev pub bcrypt_cost : ℕ
bcrypt_cost = 12

-- The user that is built of a request; the other fields have Go's zero values.
unfoldable pub new_user : RegisterRequest → String → User
new_user req hashed = record {
  id = 0;
  email = req.email;
  password = hashed;
  first_name = req.first_name;
  last_name = req.last_name;
  phone = req.phone;
  user_type = req.user_type;
  google_id = "";
  google_email = "";
  profile_image = "";
  is_active = false;
  is_verified = false;
  created_at = 0;
  updated_at = 0;
  last_login_at = none;
  email_verified_at = none;
  login_attempts = 0;
  last_login_ip = "";
  password_change_at = 0;
  locked_until = none;
}

-- `errors.As(err, &conflictErr)` holds of every application error, not of conflicts alone.
unfoldable pub create_failure : Error → Error
unfolding as_app_error
create_failure e = if is_some (as_app_error e) then e else wrapped "service" e

module _ {W : Type 0} (p : Platform W) where
  -- The answer to the query for a user with the e-mail address.
  abbrev must_be_new : Result User → Exec W (Unit {0})
  must_be_new (ok user) =
      raise_app (new_conflict_error "user with this email already exists" no_cause)
  must_be_new (err e) =
      if is_no_documents e
      then pure tt
      else raise_app (new_database_error "failed to check existing user" (caused e))

  unfoldable pub require_new : String → Exec W (Unit {0})
  unfolding new_conflict_error new_database_error ◌>>=◌
  require_new email = do existing ← attempt (get_by_email p email); must_be_new existing

  abbrev stored : Result (Unit {0}) × (User × W) → Result User × W
  stored (ok u, (user, w)) = (ok user, w)
  stored (err e, (user, w)) = (err (create_failure e), w)

  -- `backoff.Retry` of `Create`, with at most three retries.
  unfoldable pub create_with_retry : User → Exec W User
  unfolding create_failure
  create_with_retry user w = stored (p.retry 3 (create p) (user, w))

  unfoldable pub check_request : RegisterRequest → Exec W (Unit {0})
  unfolding new_validation_error ◌>>=◌
  check_request req = or_fail (lift (validate_register_request p.parse_address req)) λ e. to_error (
      new_validation_error "failed to validate register request"
        (("error", message p.library_text e) ∷ []))

  unfoldable pub hash_password : String → Exec W String
  unfolding new_internal_error ◌>>=◌
  hash_password password =
      or_fail (p.bcrypt_generate password bcrypt_cost)
        λ e. to_error (new_internal_error "failed to hash password" (caused e))

  unfoldable pub save_token : RefreshToken → Exec W (Unit {0})
  unfolding ◌>>=◌
  save_token model = or_fail (save_refresh_token p model) (wrapped "failed to save refresh token")

module _ {W : Type 0} (p : Platform W) (j : JwtUtils) where
  -- From the checked request on.
  unfoldable pub register_user : RegisterRequest → RequestMetadata → Exec W AuthResponse
  unfolding require_new hash_password save_token ◌>>=◌
  register_user req metadata = do
    require_new p req.email
    hashed ← hash_password p req.password
    user ← create_with_retry p (new_user req hashed)
    (access, refresh) ← generate_tokens p j user
    model ← token_model p j user.id refresh metadata
    save_token p model
    auth_response p j user access refresh

  unfoldable pub create_user : RegisterRequest → RequestMetadata → Exec W AuthResponse
  unfolding check_request register_user ◌>>=◌
  create_user req metadata = do check_request p req; register_user req metadata
