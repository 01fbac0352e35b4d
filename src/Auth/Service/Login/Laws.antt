-- ===== src/Auth/Service/Login/Laws.antt =====
-- What a successful login of service.go has checked.
use re_master.Prelude.{ℕ, ◌<◌, String, ◌≡◌, arith}
use re_master.Errors.Types.{redis_nil}
use re_master.Exec.{Result, ok, err, ◌>>=◌}
use re_master.Exec.Laws.{bind-eq-ok}
use re_master.Auth.Models.{User, LoginRequest, RequestMetadata, AuthResponse, to_response}
use re_master.Auth.Platform.{Platform}
use re_master.Auth.Jwt.{JwtUtils}
use re_master.Auth.Repository.{get_by_email}
use re_master.Auth.Cache.RateLimiter.{check_login_attempts, attempts_key, max_login_attempts}
use re_master.Auth.Service.Tokens.{auth_response}
use re_master.Auth.Service.Login.{
  check_attempts, check_password, open_session, authenticate_user, known, reject,
}

module _ {W : Type 0} (p : Platform W) (j : JwtUtils) where
  -- The response is about the user whose session is opened.
  pub open_session-user :
      (user : User) (metadata : RequestMetadata) (w : W) {resp : AuthResponse} {w' : W}
      → open_session p j user metadata w ≡ (ok resp, w')
      → resp.user ≡ to_response p.hex user
  unfolding open_session auth_response ◌>>=◌
  open_session-user user metadata w h = ground arith

  -- The counter of failed logins lets an attempt pass only below its limit, or if it is missing.
  abbrev pub Below : Result ℕ → Type 0
  Below (ok n) = n < max_login_attempts
  Below (err e) = e ≡ redis_nil

  check_attempts-Below :
      (email : String) (w : W) {u : Unit {0}}
      → (check_attempts p email w).0 ≡ ok u
      → Below (p.redis.get_int (attempts_key email) w).0
  unfolding check_attempts check_login_attempts ◌>>=◌
  check_attempts-Below email w h = ground arith

  check_password-checks :
      (req : LoginRequest) (w : W) {user : User}
      → (check_password p req w).0 ≡ ok user
      → ((get_by_email p req.email w).0 ≡ ok user)
        × (p.bcrypt_compare user.password req.password ≡ ok tt)
  unfolding check_password reject ◌>>=◌
  check_password-checks req w h = ground arith

  -- A login that succeeds was below the limit of failed attempts, or had none; its password was
  -- compared with that of the user that the database holds under the e-mail address, and the
  -- response is about that user.
  pub authenticate_user_sound :
      (req : LoginRequest) (metadata : RequestMetadata) (w : W) {resp : AuthResponse} {w' : W}
      → authenticate_user p j req metadata w ≡ (ok resp, w')
      → Below (p.redis.get_int (attempts_key req.email) w).0
        × ((user : User) × ((get_by_email p req.email (check_attempts p req.email w).1).0 ≡ ok user)
            × (p.bcrypt_compare user.password req.password ≡ ok tt)
            × (resp.user ≡ to_response p.hex user))
  unfolding authenticate_user
  authenticate_user_sound req metadata w h =
      let (u, counted, rest) = bind-eq-ok (check_attempts p req.email) _ w h in
      let (user, known, opened) = bind-eq-ok (check_password p req) _ _ rest in
      let (found, same) = check_password-checks req _ known in
      (
        check_attempts-Below req.email w counted,
        (user, found, same, open_session-user user metadata _ opened),
      )
