-- ===== src/Auth/Service/Login/Lockout.antt =====
-- The limit on failed logins of service.go and rate_limiter.go.
use re_master.Prelude.{ℕ, ◌≤◌, ◌≡◌, le→leb}
use re_master.Prelude.Text.{◌<>◌}
use re_master.Errors.Types.{plain, to_error, new_too_many_requests_error}
use re_master.Errors.Chain.{message}
use re_master.Exec.{ok, err}
use re_master.Auth.Models.{LoginRequest, RequestMetadata}
use re_master.Auth.Platform.{Platform}
use re_master.Auth.Jwt.{JwtUtils}
use re_master.Auth.Cache.RateLimiter.{check_login_attempts, attempts_key, max_login_attempts}
use re_master.Auth.Service.Login.{authenticate_user}

module _ {W : Type 0} (p : Platform W) (j : JwtUtils) where
  -- At the limit a login is refused whatever its password, and all that it does is to read the
  -- counter and its time to live: no user is looked up and the counter is not changed.
  pub authenticate_user_locked :
      (req : LoginRequest) (metadata : RequestMetadata) (w : W) (n : ℕ)
      → (p.redis.get_int (attempts_key req.email) w).0 ≡ ok n
      → max_login_attempts ≤ n
      → let (left, w') =
          p.redis.ttl (attempts_key req.email) (p.redis.get_int (attempts_key req.email) w).1 in
        authenticate_user p j req metadata w ≡ (
          err (
              to_error (
                new_too_many_requests_error (
                  message p.library_text (
                    plain
                      ("too many login attempts, try again in " <> p.redis.duration_text left))))),
          w',
        )
  unfolding authenticate_user check_login_attempts
  authenticate_user_locked req metadata w n counted full = rw (counted, le→leb 5 n full)
