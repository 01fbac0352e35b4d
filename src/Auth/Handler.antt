-- ===== src/Auth/Handler.antt =====
-- services/auth/handlers/handler.go: the RPCs of the authentication service. Log records are not
-- modelled.
pub mod Laws
use re_master.Prelude.{String, true, Option, none, some, List, [], ◌∷◌}
use re_master.Prelude.Maps.{lookup}
use re_master.Errors.Handlers.{handle_grpc_error}
use re_master.Exec.{Exec, pure, read, or_fail, ◌>>=◌}
use re_master.Auth.Models.{RequestMetadata, AuthResponse}
use re_master.Auth.Platform.{Platform}
use re_master.Auth.Jwt.{JwtUtils}
use re_master.Auth.Oauth.{Provider}
use re_master.Auth.Proto as Pb
use re_master.Auth.Service.Register.{create_user}
use re_master.Auth.Service.Login.{authenticate_user}
use re_master.Auth.Service as Service

-- What an RPC's context tells: the metadata of the call, and the address of the peer, if it is known.
pub record CallContext : Type 0 where
  pub metadata : List (String × List String)
  pub peer : Option String

-- `if val, ok := md[key]; ok && len(val) > 0 { … = val[0] }`
abbrev first_value : Option (List String) → String
first_value none = ""
first_value (some []) = ""
first_value (some (value ∷ values)) = value

abbrev address : Option String → String
address none = ""
address (some a) = a

unfoldable pub extract_request_metadata : CallContext → RequestMetadata
unfolding lookup
extract_request_metadata ctx = record {
  user_agent = first_value (lookup "user-agent" ctx.metadata);
  ip_address = address ctx.peer;
  device_id = first_value (lookup "x-device-id" ctx.metadata);
}

abbrev register_response : AuthResponse → Pb.RegisterResponse
register_response resp = record {
  success = true;
  message = "Registration successful";
  user_id = resp.user.id;
  access_token = resp.access_token;
  refresh_token = resp.refresh_token;
  expires_at = resp.expires_at;
  user_type = resp.user.user_type;
  is_active = resp.user.is_active;
  is_verified = resp.user.is_verified;
  created_at = none;
}

abbrev login_response : AuthResponse → Pb.LoginResponse
login_response resp = record {
  success = true;
  message = "Login successful";
  user_id = resp.user.id;
  access_token = resp.access_token;
  refresh_token = resp.refresh_token;
  expires_at = resp.expires_at;
  user_type = resp.user.user_type;
  is_active = resp.user.is_active;
  is_verified = resp.user.is_verified;
}

abbrev oauth_response : AuthResponse → Pb.OauthLoginResponse
oauth_response resp = record {
  success = true;
  message = "OAuth login successful";
  user_id = resp.user.id;
  access_token = resp.access_token;
  refresh_token = resp.refresh_token;
  expires_at = resp.expires_at;
  user_type = resp.user.user_type;
}

module _ {W : Type 0} (p : Platform W) (j : JwtUtils) where
  unfoldable pub registration : CallContext → Pb.RegisterRequest → Exec W Pb.RegisterResponse
  unfolding handle_grpc_error ◌>>=◌
  registration ctx req = do
    resp ←
        or_fail
          (create_user p j
            (record {
              email = req.email;
              password = req.password;
              first_name = req.first_name;
              last_name = req.last_name;
              phone = req.phone;
              user_type = req.user_type;
            })
            (extract_request_metadata ctx))
          handle_grpc_error
    pure (register_response resp)

  unfoldable pub login : CallContext → Pb.LoginRequest → Exec W Pb.LoginResponse
  unfolding handle_grpc_error ◌>>=◌
  login ctx req = do
    resp ←
        or_fail
          (authenticate_user p j (record { email = req.email; password = req.password })
            (extract_request_metadata ctx))
          handle_grpc_error
    pure (login_response resp)

  unfoldable pub oauth_login :
      List (String × Provider) → CallContext → Pb.OauthLoginRequest → Exec W Pb.OauthLoginResponse
  unfolding handle_grpc_error ◌>>=◌
  oauth_login factory ctx req = do
    resp ←
        or_fail
          (Service.OauthLogin.oauth_login p j factory
            (record { provider = req.provider; id_token = req.id_token })
            (extract_request_metadata ctx))
          handle_grpc_error
    pure (oauth_response resp)

  unfoldable pub refresh_token :
      CallContext → Pb.RefreshTokenRequest → Exec W Pb.RefreshTokenResponse
  unfolding handle_grpc_error ◌>>=◌
  refresh_token ctx req = do
    resp ←
        or_fail (Service.Refresh.refresh_token p j req.refresh_token (extract_request_metadata ctx))
          handle_grpc_error
    pure (record {
      success = true;
      message = "Token refresh successful";
      access_token = resp.access_token;
      refresh_token = resp.refresh_token;
      expires_at = resp.expires_at;
      created_at = none;
    })

  unfoldable pub validate_token : Pb.ValidateTokenRequest → Exec W Pb.ValidateTokenResponse
  unfolding handle_grpc_error ◌>>=◌
  validate_token req = do
    resp ← or_fail (Service.Validate.validate_token p j req.access_token) handle_grpc_error
    pure (record {
      valid = resp.valid;
      user_id = resp.user_id;
      email = "";
      user_type = resp.user_type;
      expires_at = resp.expires_at;
      message = "Token validated";
      is_active = resp.is_active;
      is_verified = resp.is_verified;
      last_login_at = none;
    })

module _ {W : Type 0} (p : Platform W) where
  -- Of the request only the refresh token is passed on.
  unfoldable pub logout : Pb.LogoutRequest → Exec W Pb.LogoutResponse
  unfolding handle_grpc_error ◌>>=◌
  logout req = do
    done ←
        or_fail
          (Service.Logout.logout p
            (record { user_id = ""; access_token = ""; refresh_token = req.refresh_token }))
          handle_grpc_error
    pure (record { success = true; message = "Logout successful" })

  unfoldable pub change_password : Pb.ChangePasswordRequest → Exec W Pb.ChangePasswordResponse
  unfolding handle_grpc_error ◌>>=◌
  change_password req = do
    done ←
        or_fail
          (Service.Password.change_password p (record {
            user_id = req.user_id;
            old_password = req.old_password;
            new_password = req.new_password;
          }))
          handle_grpc_error
    pure (record {
      success = true;
      message = "Password changed successfully";
      password_changed_at = none;
    })

  unfoldable pub health : Exec W Pb.HealthResponse
  unfolding ◌>>=◌
  health = do t ← read p.now; pure (record { status = "ok"; timestamp = some t; checks = [] })
