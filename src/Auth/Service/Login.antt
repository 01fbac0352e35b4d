-- ===== src/Auth/Service/Login.antt =====
-- `AuthenticateUser` of services/auth/services/service.go
pub mod Laws
pub mod Lockout
pub mod BruteForce
pub mod Gate
pub mod Refines
pub mod Series
pub mod Session
use re_master.Prelude.{ℕ, ◌+◌, String, Bool, true, false, if◌then◌else◌}
use re_master.Errors.Types.{
  Error, to_error, caused, new_database_error, new_unauthorized_error, new_too_many_requests_error,
}
use re_master.Errors.Chain.{is_no_documents, message}
use re_master.Exec.{
  Result, ok, err, Exec, pure, raise_app, read, attempt, or_fail, ignore, ◌>>=◌, ◌>>◌,
}
use re_master.Auth.Models.{User, LoginRequest, RequestMetadata, AuthResponse}
use re_master.Auth.Platform.{Platform}
use re_master.Auth.Jwt.{JwtUtils}
use re_master.Auth.Repository.{get_by_email, update_login_info, save_refresh_token}
use re_master.Auth.Cache.RateLimiter.{
  check_login_attempts, increment_login_attempts, reset_login_attempts,
}
use re_master.Auth.Cache.RefreshTokens as TokenStore
use re_master.Auth.Service.Tokens.{generate_tokens, token_model, auth_response}

module _ {W : Type 0} (p : Platform W) where
  unfoldable pub check_attempts : String → Exec W (Unit {0})
  unfolding new_too_many_requests_error ◌>>=◌
  check_attempts email = do
    (may_go_on, attempts) ←
        or_fail (check_login_attempts p.redis email)
          λ e. to_error (new_too_many_requests_error (message p.library_text e))
    if may_go_on then pure tt else raise_app (new_too_many_requests_error "too many login attempts")

  -- A failed login is counted; that the counting fails is only logged.
  unfoldable pub reject : {A : Type 0} → String → Exec W A
  unfolding new_unauthorized_error ◌>>=◌
  reject email = do
    ignore (increment_login_attempts p.redis email)
    raise_app (new_unauthorized_error "invalid email or password")

  -- What follows the query for the user.
  abbrev known : String → Result User → Exec W User
  known email (ok user) = pure user
  known email (err e) =
      if is_no_documents e
      then reject email
      else raise_app (new_database_error "failed to fetch user" (caused e))

  abbrev matched : String → Result (Unit {0}) → Exec W (Unit {0})
  matched email (ok u) = pure tt
  matched email (err e) = reject email

  unfoldable pub check_password : LoginRequest → Exec W User
  unfolding new_database_error reject ◌>>=◌
  check_password req = do
    found ← attempt (get_by_email p req.email)
    user ← known req.email found
    matched req.email (p.bcrypt_compare user.password req.password)
    ignore (reset_login_attempts p.redis req.email)
    pure user

module _ {W : Type 0} (p : Platform W) (j : JwtUtils) where
  -- The tokens of a user whose password was right, in Redis and in the database.
  unfoldable pub open_session : User → RequestMetadata → Exec W AuthResponse
  unfolding new_database_error ◌>>=◌
  open_session user metadata = do
    (access, refresh) ← generate_tokens p j user
    t ← read p.now
    TokenStore.save_refresh_token p user.id refresh (t + j.refresh_token_ttl)
    ignore (update_login_info p user.id metadata.ip_address)
    model ← token_model p j user.id refresh metadata
    or_fail (save_refresh_token p model)
        λ e. to_error (new_database_error "failed to save refresh token" (caused e))
    auth_response p j user access refresh

  unfoldable pub authenticate_user : LoginRequest → RequestMetadata → Exec W AuthResponse
  unfolding check_attempts check_password open_session ◌>>=◌
  authenticate_user req metadata = do
    check_attempts p req.email
    user ← check_password p req
    open_session user metadata
