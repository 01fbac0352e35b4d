-- ===== src/Auth/Service/Logout.antt =====
-- `Logout` of services/auth/services/service.go
pub mod Laws
pub mod Revokes
use re_master.Prelude.{ℕ, String, [], ◌∷◌}
use re_master.Errors.Types.{Error, to_error, new_validation_error}
use re_master.Exec.{Result, Exec, lift, or_fail, ◌>>=◌, ◌>>◌}
use re_master.Auth.Models.{LogoutRequest}
use re_master.Auth.Platform.{Platform}
use re_master.Auth.Repository.{revoke_refresh_token}

module _ {W : Type 0} (p : Platform W) where
  -- The request's refresh token is read as the identifier of its document.
  unfoldable pub logout : LogoutRequest → Exec W (Unit {0})
  unfolding new_validation_error ◌>>=◌
  logout req = do
    token_id ← or_fail (lift (p.object_id_from_hex req.refresh_token)) λ e. to_error (
        new_validation_error "invalid refresh token id" (("refresh_token", req.refresh_token) ∷ []))
    revoke_refresh_token p token_id
