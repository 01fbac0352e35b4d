-- ===== src/Auth/Repository.antt =====
-- services/auth/repositories/repository.go. Log records are not modelled.
use re_master.Prelude.{
  ℕ, ◌+◌, String, Bool, false, ◌||◌, Option, none, some, List, [], ◌∷◌, any, nat_eq, if◌then◌else◌,
}
use re_master.Prelude.Text.{◌<>◌}
use re_master.Errors.Types.{
  Error, no_documents, wrapped, AppError, to_error, caused, new_conflict_error, new_database_error,
  new_unauthorized_error,
}
use re_master.Errors.Chain.{is_no_documents, as_write_exception, as_command_error}
use re_master.Exec.{Result, ok, err, Exec, pure, read, or_fail, ◌>>=◌}
use re_master.Auth.Models.{User, RefreshToken, before_create}
use re_master.Auth.Platform.{
  Platform, by_email, by_id, set_last_login_at, set_last_login_ip, set_locked_until,
  unset_locked_until, set_password, set_login_attempts, inc_login_attempts,
}

-- 11000 is the server's code for a duplicate key.
abbrev duplicate_write : Option (List ℕ) → Bool
duplicate_write none = false
duplicate_write (some codes) = any (nat_eq 11000) codes

abbrev duplicate_command : Option ℕ → Bool
duplicate_command none = false
duplicate_command (some code) = nat_eq 11000 code

unfoldable pub is_unique_constraint_error : Error → Bool
unfolding as_write_exception as_command_error
is_unique_constraint_error e =
    duplicate_write (as_write_exception e) || duplicate_command (as_command_error e)

-- The error of `Create` for an error of `InsertOne`.
unfoldable pub create_error : String → Error → AppError
unfolding is_unique_constraint_error new_conflict_error new_database_error
create_error email e =
    if is_unique_constraint_error e
    then new_conflict_error ("user with email " <> email <> " already exists") (caused e)
    else new_database_error "failed to create user" (caused e)

-- The errors of the two queries for a user.
unfoldable pub find_error : String → Error → Error
unfolding is_no_documents
find_error message e = if is_no_documents e then no_documents else wrapped message e

unfoldable pub find_token_error : Error → Error
unfolding is_no_documents new_unauthorized_error new_database_error
find_token_error e =
    if is_no_documents e
    then to_error (new_unauthorized_error "refresh token not found")
    else to_error (new_database_error "failed to find refresh token" (caused e))

abbrev pub created : String → Result (Unit {0}) → Result (Unit {0})
created email (ok u) = ok u
created email (err e) = err (to_error (create_error email e))

module _ {W : Type 0} (p : Platform W) where
  unfoldable pub ensure_indexes : Exec W (Unit {0})
  unfolding ◌>>=◌
  ensure_indexes = or_fail p.create_email_index (wrapped "create users.email index")

  -- `user.BeforeCreate()` with the time and, where it is asked for one, the identifier.
  unfoldable pub stamped : User × W → User × W
  unfolding before_create
  stamped (user, w) =
      let (t, w₁) = p.now w in
      let (new_id, w₂) = p.new_object_id w₁ in
      if nat_eq user.id 0 then (before_create t new_id user, w₂) else (before_create t 0 user, w₁)

  -- `Create` writes to the user that it is given, also where the insertion fails.
  unfoldable pub create : User × W → Result (Unit {0}) × (User × W)
  unfolding stamped create_error
  create (user, w) =
      let (stored, w₁) = stamped (user, w) in
      let (r, w₂) = p.users_insert_one stored w₁ in (created stored.email r, (stored, w₂))

  unfoldable pub get_by_email : String → Exec W User
  unfolding find_error ◌>>=◌
  get_by_email email =
      or_fail (p.users_find_one (by_email email)) (find_error "failed to get user by email")

  unfoldable pub get_by_id : ℕ → Exec W User
  unfolding find_error ◌>>=◌
  get_by_id id = or_fail (p.users_find_one (by_id id)) (find_error "failed to get user by id")

  unfoldable pub save_refresh_token : RefreshToken → Exec W (Unit {0})
  unfolding ◌>>=◌
  save_refresh_token token = do
    new_id ← read p.new_object_id
    or_fail (p.tokens_insert_one (record token { id = new_id }))
        (wrapped "failed to save refresh token")

  unfoldable pub find_refresh_token : String → Exec W RefreshToken
  unfolding find_token_error ◌>>=◌
  find_refresh_token token = or_fail (p.tokens_find_one token) find_token_error

  unfoldable pub revoke_refresh_token : ℕ → Exec W (Unit {0})
  unfolding new_database_error ◌>>=◌
  revoke_refresh_token id =
      or_fail (p.tokens_set_revoked id)
        λ e. to_error (new_database_error "failed to revoke refresh token" (caused e))

  unfoldable pub update_login_info : ℕ → String → Exec W (Unit {0})
  unfolding ◌>>=◌
  update_login_info id ip = do
    t ← read p.now
    p.users_update_one (by_id id) (set_last_login_at t ∷ set_last_login_ip ip ∷ [])

  unfoldable pub lock_user_account : ℕ → ℕ → Exec W (Unit {0})
  unfolding ◌>>=◌
  lock_user_account id duration = do
    t ← read p.now
    p.users_update_one (by_id id) (set_locked_until (t + duration) ∷ [])

  unfoldable pub update_password : ℕ → String → Exec W (Unit {0})
  unfolding new_database_error ◌>>=◌
  update_password id hashed =
      or_fail (p.users_update_one (by_id id) (set_password hashed ∷ []))
        λ e. to_error (new_database_error "failed to update password" (caused e))

  unfoldable pub increment_login_attempts : ℕ → Exec W ℕ
  unfolding ◌>>=◌
  increment_login_attempts id = do
    updated ← p.users_find_one_and_update (by_id id) (inc_login_attempts 1 ∷ [])
    pure updated.login_attempts

  unfoldable pub reset_login_attempts : ℕ → Exec W (Unit {0})
  reset_login_attempts id =
      p.users_update_one (by_id id) (set_login_attempts 0 ∷ unset_locked_until ∷ [])
