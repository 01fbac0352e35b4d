-- ===== src/Auth/Service/Tokens.antt =====
-- The steps at the end of every login of services/auth/services/service.go: a pair of tokens, the
-- document that is stored for the refresh token, and the response.
pub mod Frame
use re_master.Prelude.{ℕ, ◌+◌, String, false}
use re_master.Exec.{Exec, pure, read, ◌>>=◌}
use re_master.Auth.Models.{User, RefreshToken, AuthResponse, RequestMetadata, to_response, unix, at}
use re_master.Auth.Platform.{Platform}
use re_master.Auth.Jwt.{JwtUtils, generate_access_token, generate_refresh_token}

abbrev pub no_metadata : RequestMetadata
no_metadata = record { user_agent = ""; ip_address = ""; device_id = "" }

-- The document of a new refresh token; its identifier is set when it is stored.
unfoldable pub new_refresh_token : ℕ → String → ℕ → ℕ → RequestMetadata → RefreshToken
new_refresh_token user_id token expires created metadata = record {
  id = 0;
  user_id = user_id;
  token = token;
  expires_at = expires;
  created_at = created;
  is_revoked = false;
  device_id = metadata.device_id;
  user_agent = metadata.user_agent;
  ip = metadata.ip_address;
}

module _ {W : Type 0} (p : Platform W) (j : JwtUtils) where
  -- The access token and the refresh token of the user.
  unfoldable pub generate_tokens : User → Exec W (String × String)
  unfolding generate_access_token generate_refresh_token ◌>>=◌
  generate_tokens user = do
    access ← generate_access_token p j (p.hex user.id) user.email user.user_type
    refresh ← generate_refresh_token p j
    pure (access, refresh)

  -- The struct literal reads the clock twice.
  unfoldable pub token_model : ℕ → String → RequestMetadata → Exec W RefreshToken
  unfolding new_refresh_token ◌>>=◌
  token_model user_id token metadata = do
    expires ← read p.now
    created ← read p.now
    pure (new_refresh_token user_id token (expires + j.refresh_token_ttl) created metadata)

  unfoldable pub auth_response : User → String → String → Exec W AuthResponse
  unfolding to_response unix ◌>>=◌
  auth_response user access refresh = do
    t ← read p.now
    pure (record {
      user = to_response p.hex user;
      access_token = access;
      refresh_token = refresh;
      expires_at = unix (at (t + j.access_token_ttl));
      token_type = "Bearer";
    })
