-- ===== src/Auth/Service/Validate.antt =====
-- `ValidateToken` of services/auth/services/service.go
pub mod Laws
use re_master.Prelude.{ℕ, String, Bool, true}
use re_master.Errors.Types.{
  Error, to_error, caused, new_database_error, new_internal_error, new_unauthorized_error,
}
use re_master.Exec.{Result, Exec, pure, lift, or_fail, ◌>>=◌, ◌>>◌}
use re_master.Auth.Models.{User, ValidateTokenResponse, unix}
use re_master.Auth.Platform.{Platform, Claims}
use re_master.Auth.Jwt.{JwtUtils, validate_access_token}
use re_master.Auth.Repository.{get_by_id}

module _ {W : Type 0} (p : Platform W) (j : JwtUtils) where
  -- `claims.ExpiresAt` is the field of `CustomClaims` itself.
  unfoldable pub validate_response : User → Claims → ValidateTokenResponse
  unfolding unix
  validate_response user claims = record {
    valid = true;
    user_id = p.hex user.id;
    user_type = user.user_type;
    is_active = user.is_active;
    is_verified = user.is_verified;
    expires_at = unix claims.expires_at;
  }

  unfoldable pub validate_token : String → Exec W ValidateTokenResponse
  unfolding validate_response new_unauthorized_error new_internal_error new_database_error ◌>>=◌
  validate_token access_token = do
    claims ←
        or_fail (validate_access_token p j access_token)
          λ e. to_error (new_unauthorized_error "invalid or expired token")
    user_id ←
        or_fail (lift (p.object_id_from_hex claims.user_id))
          λ e. to_error (new_internal_error "failed to parse user id" (caused e))
    user ←
        or_fail (get_by_id p user_id)
          λ e. to_error (new_database_error "failed to fetch user" (caused e))
    pure (validate_response user claims)
