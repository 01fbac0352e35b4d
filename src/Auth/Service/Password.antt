-- ===== src/Auth/Service/Password.antt =====
-- `ChangePassword` of services/auth/services/service.go
pub mod Laws
use re_master.Prelude.{ℕ, String, [], ◌∷◌}
use re_master.Errors.Types.{
  Error, to_error, caused, new_database_error, new_internal_error, new_unauthorized_error,
  new_validation_error,
}
use re_master.Exec.{Result, Exec, pure, lift, or_fail, ◌>>=◌, ◌>>◌}
use re_master.Auth.Models.{User, ChangePasswordRequest}
use re_master.Auth.Platform.{Platform}
use re_master.Auth.Repository.{get_by_id, update_password}
use re_master.Auth.Service.Register.{bcrypt_cost}

module _ {W : Type 0} (p : Platform W) where
  -- The user of the request, if the old password is right.
  unfoldable pub check_old_password : ChangePasswordRequest → Exec W User
  unfolding new_validation_error new_database_error new_unauthorized_error ◌>>=◌
  check_old_password req = do
    user_id ←
        or_fail (lift (p.object_id_from_hex req.user_id))
          λ e. to_error (new_validation_error "invalid user id" (("user_id", req.user_id) ∷ []))
    user ←
        or_fail (get_by_id p user_id)
          λ e. to_error (new_database_error "failed to fetch user" (caused e))
    or_fail (lift (p.bcrypt_compare user.password req.old_password))
        λ e. to_error (new_unauthorized_error "old password is incorrect")
    pure user

  unfoldable pub new_hash : String → Exec W String
  unfolding new_internal_error ◌>>=◌
  new_hash password =
      or_fail (p.bcrypt_generate password bcrypt_cost)
        λ e. to_error (new_internal_error "failed to hash new password" (caused e))

  unfoldable pub save_hash : ℕ → String → Exec W (Unit {0})
  unfolding new_database_error ◌>>=◌
  save_hash id hashed =
      or_fail (update_password p id hashed)
        λ e. to_error (new_database_error "failed to update password" (caused e))

  unfoldable pub change_password : ChangePasswordRequest → Exec W (Unit {0})
  unfolding check_old_password new_hash save_hash ◌>>=◌
  change_password req = do
    user ← check_old_password req
    hashed ← new_hash req.new_password
    save_hash user.id hashed
