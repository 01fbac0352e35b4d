-- ===== src/Tests/Service.antt =====
-- Instances of the theorems on services/auth/services/service.go, and runs of its operations, on the
-- platform in memory.
use re_master.Prelude.{String, ◌≡◌, ◌≢◌, ◌↔◌, refl, true, false, [], ◌∷◌, eq_iff, arith}
use re_master.Prelude.Text.{trim_space}
use re_master.Prelude.Hex.{encode_to_string}
use re_master.Prelude.Int.{pos}
use re_master.Errors.Types.{to_error, new_unauthorized_error, no_documents}
use re_master.Exec.{ok, err}
use re_master.Auth.Models.{
  User, RegisterRequest, RefreshTokenResponse, AuthResponse, to_response, validate_register_request,
  user_type_client,
}
use re_master.Auth.Models.Laws.{IsAcceptable, validate_iff}
use re_master.Auth.Platform.{by_email}
use re_master.Auth.Oauth.{Profile}
use re_master.Auth.Repository.{
  get_by_email, get_by_id, find_refresh_token, revoke_refresh_token, save_refresh_token, create,
}
use re_master.Auth.Service.Tokens.{no_metadata, generate_tokens, token_model, auth_response}
use re_master.Auth.Service.Register.{create_user, create_with_retry, new_user}
use re_master.Auth.Service.Register.FirstLogin.{verdict, registered_login}
use re_master.Auth.Service.Login.{check_password}
use re_master.Samples.Users.{unique_platform, unique_platform-StoresUsers}
use re_master.Auth.Service.Register.Laws.{IsMissing, Answers, create_user_sound}
use re_master.Auth.Service.OauthLogin.{oauth_user, new_oauth_user}
use re_master.Auth.Service.OauthLogin.Laws.{new_user-not_verified}
use re_master.Auth.Service.Refresh.{refresh_token}
use re_master.Auth.Service.Refresh.Laws.{single_use}
use re_master.Samples.{
  World, platform, config, start, ada, old_token, zeros, find_user, find_token, revoke,
}
use re_master.Samples.Laws.{platform-StoresToken, platform-Retries}

abbrev grace : RegisterRequest
grace = record {
  email = "grace@example.org";
  password = "cobol1959";
  first_name = "Grace";
  last_name = "Hopper";
  phone = "1";
  user_type = "client";
}

grace-accepted : validate_register_request platform.parse_address grace ≡ ok tt
unfolding validate_register_request trim_space
grace-accepted = refl

validate_iff_example :
    (validate_register_request platform.parse_address grace ≡ ok tt)
    ↔ IsAcceptable platform.parse_address grace
validate_iff_example = validate_iff platform.parse_address grace

abbrev pub new_token : String
new_token = "0000000000000000000000000000000000000000000000000000000000000000"

abbrev refreshed : RefreshTokenResponse
refreshed = record {
  success = false;
  message = "";
  access_token = "jwt:000000000000000000000001";
  refresh_token = new_token;
  expires_at = pos 0;
  token_type = "";
}

abbrev after_refresh : World
after_refresh = record start {
  tokens =
      record old_token { is_revoked = true }
      ∷ record old_token { id = 10; token = new_token; expires_at = 86405; created_at = 5 }
      ∷ [];
  next_id = 11;
}

refresh_works :
    refresh_token platform config "old" no_metadata start ≡ (ok refreshed, after_refresh)
unfolding refresh_token find_refresh_token find_token revoke_refresh_token get_by_id find_user
    generate_tokens token_model save_refresh_token encode_to_string revoke zeros
refresh_works = refl

new_token-old : new_token ≢ "old"
new_token-old e = ground (arith, (eq_iff new_token "old").1 e)

single_use_example :
    (refresh_token platform config "old" no_metadata after_refresh).0
    ≡ err (to_error (new_unauthorized_error "refresh token has been revoked"))
single_use_example =
    single_use (platform-StoresToken "old") config no_metadata no_metadata start refresh_works
      new_token-old

abbrev profile : Profile
profile = record {
  email = "grace@example.org";
  first_name = "Grace";
  last_name = "Hopper";
  picture = "";
}

abbrev from_profile : User
from_profile = record (new_oauth_user profile) {
  id = 10;
  is_verified = false;
  created_at = 5;
  updated_at = 5;
  password_change_at = 5;
}

new_user_works :
    oauth_user platform profile no_metadata start
    ≡ (ok from_profile, record start { users = ada ∷ from_profile ∷ []; next_id = 11 })
unfolding oauth_user get_by_email find_user
new_user_works = refl

missing : find_user (by_email "grace@example.org") start.users ≡ err no_documents
unfolding find_user
missing = refl

new_user-not_verified_example :
    ((new_oauth_user profile).is_verified ≡ true)
    × (from_profile.is_verified ≡ false)
    × (from_profile.is_active ≡ true)
    × (from_profile.email ≡ profile.email)
    × (from_profile.user_type ≡ user_type_client)
new_user-not_verified_example =
    new_user-not_verified platform profile no_metadata start missing new_user_works

abbrev grace_stored : User
grace_stored = record (new_user grace "hash:cobol1959") {
  id = 10;
  is_active = true;
  created_at = 5;
  updated_at = 5;
  password_change_at = 5;
}

abbrev grace_response : AuthResponse
grace_response = record {
  user = to_response platform.hex grace_stored;
  access_token = "jwt:0000000000000000000000ff";
  refresh_token = new_token;
  expires_at = pos 0;
  token_type = "Bearer";
}

abbrev after_register : World
after_register = record start {
  users = ada ∷ grace_stored ∷ [];
  tokens =
      old_token
      ∷ record old_token {
        id = 11;
        user_id = 10;
        token = new_token;
        expires_at = 86405;
        created_at = 5;
      }
      ∷ [];
  next_id = 12;
}

register_works :
    create_user platform config grace no_metadata start ≡ (ok grace_response, after_register)
unfolding create_user validate_register_request trim_space get_by_email find_user create_with_retry
    create generate_tokens token_model save_refresh_token auth_response new_user encode_to_string
    zeros
register_works = refl

unique_register_works :
    create_user unique_platform config grace no_metadata start ≡ (ok grace_response, after_register)
unfolding create_user validate_register_request trim_space get_by_email find_user create_with_retry
    create generate_tokens token_model save_refresh_token auth_response new_user encode_to_string
    zeros
unique_register_works = refl

create_user_sound_example :
    (validate_register_request platform.parse_address grace ≡ ok tt)
    × IsMissing (get_by_email platform grace.email start).0
    × Answers grace grace_response.user
create_user_sound_example =
    create_user_sound platform config platform-Retries grace no_metadata start register_works

registered_login_example :
    (user : User) × (unique_platform.bcrypt_compare user.password "cobol1959" ≡ ok tt)
    × ((check_password unique_platform
          (record { email = grace.email; password = "cobol1959" })
          after_register).0
        ≡ ok user)
    × ((password : String)
        → (check_password unique_platform
            (record { email = grace.email; password = password })
            after_register).0
          ≡ verdict user (unique_platform.bcrypt_compare user.password password))
registered_login_example =
    registered_login platform-Retries config grace no_metadata start
      (unique_platform-StoresUsers grace.email) unique_register_works
