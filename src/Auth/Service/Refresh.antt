-- ===== src/Auth/Service/Refresh.antt =====
-- `RefreshToken` of services/auth/services/service.go
pub mod Laws
pub mod Interleave
use re_master.Prelude.{ℕ, ◌+◌, String, Bool, true, false, ltb, if◌then◌else◌}
use re_master.Errors.Types.{
  Error, to_error, caused, new_database_error, new_not_found_error, new_unauthorized_error,
}
use re_master.Exec.{Result, Exec, pure, raise_app, read, or_fail, ◌>>=◌, ◌>>◌}
use re_master.Auth.Models.{User, RefreshToken, RefreshTokenResponse, RequestMetadata, unix, at}
use re_master.Auth.Platform.{Platform}
use re_master.Auth.Jwt.{JwtUtils}
use re_master.Auth.Repository.{
  find_refresh_token, revoke_refresh_token, get_by_id, save_refresh_token,
}
use re_master.Auth.Service.Tokens.{generate_tokens, token_model}

module _ {W : Type 0} (p : Platform W) where
  -- A stored token that may be used: neither revoked nor expired.
  unfoldable pub usable_token : String → Exec W RefreshToken
  unfolding new_unauthorized_error ◌>>=◌
  usable_token token = do
    stored ← find_refresh_token p token
    if stored.is_revoked
        then raise_app (new_unauthorized_error "refresh token has been revoked")
        else (do
          t ← read p.now
          if ltb stored.expires_at t
              then raise_app (new_unauthorized_error "refresh token has expired")
              else pure stored)

  unfoldable pub token_owner : RefreshToken → Exec W User
  unfolding new_not_found_error ◌>>=◌
  token_owner stored =
      or_fail (get_by_id p stored.user_id)
        λ e. to_error (new_not_found_error "user associated with token not found" (caused e))

  unfoldable pub save_new_token : RefreshToken → Exec W (Unit {0})
  unfolding new_database_error ◌>>=◌
  save_new_token model =
      or_fail (save_refresh_token p model)
        λ e. to_error (new_database_error "failed to save new refresh token" (caused e))

module _ {W : Type 0} (p : Platform W) (j : JwtUtils) where
  -- The fields of the response that the source leaves out are empty.
  unfoldable pub refresh_response : String → String → Exec W RefreshTokenResponse
  unfolding unix ◌>>=◌
  refresh_response access refresh = do
    t ← read p.now
    pure (record {
      success = false;
      message = "";
      access_token = access;
      refresh_token = refresh;
      expires_at = unix (at (t + j.access_token_ttl));
      token_type = "";
    })

  -- The new pair of tokens, after the old one is revoked.
  unfoldable pub reissue : RefreshToken → RequestMetadata → Exec W RefreshTokenResponse
  unfolding token_owner save_new_token refresh_response ◌>>=◌
  reissue stored metadata = do
    user ← token_owner p stored
    (access, refresh) ← generate_tokens p j user
    model ← token_model p j user.id refresh metadata
    save_new_token p model
    refresh_response access refresh

  unfoldable pub refresh_token : String → RequestMetadata → Exec W RefreshTokenResponse
  unfolding usable_token reissue ◌>>=◌
  refresh_token token metadata = do
    stored ← usable_token p token
    revoke_refresh_token p stored.id
    reissue stored metadata
