-- ===== src/Auth/Service/OauthLogin.antt =====
-- `OAuthLogin` of services/auth/services/service.go
pub mod Laws
use re_master.Prelude.{ℕ, String, Bool, true, false, Option, none, List, ltb, if◌then◌else◌}
use re_master.Errors.Types.{
  Error, to_error, caused, new_database_error, new_internal_error, new_unauthorized_error,
}
use re_master.Errors.Chain.{is_no_documents, message}
use re_master.Exec.{
  Result, ok, err, Exec, pure, raise_app, lift, attempt, or_fail, ignore, ◌>>=◌, ◌>>◌,
}
use re_master.Auth.Models.{User, OauthLoginRequest, RequestMetadata, AuthResponse, user_type_client}
use re_master.Auth.Platform.{Platform}
use re_master.Auth.Jwt.{JwtUtils}
use re_master.Auth.Oauth.{Profile, Provider, get_provider, verify_id_token}
use re_master.Auth.Repository.{
  create, get_by_email, update_login_info, reset_login_attempts, save_refresh_token,
}
use re_master.Auth.Service.Tokens.{no_metadata, generate_tokens, token_model, auth_response}

-- The user that is built of a profile, active and verified.
unfoldable pub new_oauth_user : Profile → User
new_oauth_user profile = record {
  id = 0;
  email = profile.email;
  password = "";
  first_name = profile.first_name;
  last_name = profile.last_name;
  phone = "";
  user_type = user_type_client;
  google_id = "";
  google_email = "";
  profile_image = profile.picture;
  is_active = true;
  is_verified = true;
  created_at = 0;
  updated_at = 0;
  last_login_at = none;
  email_verified_at = none;
  login_attempts = 0;
  last_login_ip = "";
  password_change_at = 0;
  locked_until = none;
}

module _ {W : Type 0} (p : Platform W) where
  abbrev inserted : Result (Unit {0}) × (User × W) → Result User × W
  inserted (ok u, (user, w)) = (ok user, w)
  inserted (err e, (user, w)) =
      (err (to_error (new_database_error "failed to create user" (caused e))), w)

  unfoldable pub create_oauth_user : Profile → Exec W User
  unfolding new_oauth_user new_database_error create
  create_oauth_user profile w = inserted (create p (new_oauth_user profile, w))

  -- The failures of the two updates are dropped.
  unfoldable pub update_login : User → RequestMetadata → Exec W User
  unfolding ◌>>=◌
  update_login user metadata = do
    if ltb 0 user.login_attempts then ignore (reset_login_attempts p user.id) else pure tt
    ignore (update_login_info p user.id metadata.ip_address)
    pure user

  abbrev found_or_new : Profile → RequestMetadata → Result User → Exec W User
  found_or_new profile metadata (ok user) = update_login user metadata
  found_or_new profile metadata (err e) =
      if is_no_documents e
      then create_oauth_user profile
      else raise_app (new_database_error "failed to find user" (caused e))

  unfoldable pub oauth_user : Profile → RequestMetadata → Exec W User
  unfolding create_oauth_user update_login new_database_error ◌>>=◌
  oauth_user profile metadata = do
    found ← attempt (get_by_email p profile.email)
    found_or_new profile metadata found

  unfoldable pub verify_profile : List (String × Provider) → OauthLoginRequest → Exec W Profile
  unfolding new_internal_error new_unauthorized_error ◌>>=◌
  verify_profile factory req = do
    provider ←
        or_fail (lift (get_provider factory req.provider))
          λ e. to_error (new_internal_error "invalid oauth provider" (caused e))
    or_fail (verify_id_token p provider req.id_token)
        λ e. to_error (new_unauthorized_error (message p.library_text e))

module _ {W : Type 0} (p : Platform W) (j : JwtUtils) where
  -- The stored token has no device, agent or address.
  unfoldable pub oauth_login :
      List (String × Provider) → OauthLoginRequest → RequestMetadata → Exec W AuthResponse
  unfolding verify_profile oauth_user ◌>>=◌
  oauth_login factory req metadata = do
    profile ← verify_profile p factory req
    user ← oauth_user p profile metadata
    (access, refresh) ← generate_tokens p j user
    model ← token_model p j user.id refresh no_metadata
    save_refresh_token p model
    auth_response p j user access refresh
