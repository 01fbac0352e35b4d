-- ===== src/Auth/Cache/RateLimiter.antt =====
-- services/auth/cache/rate_limiter.go
use re_master.Prelude.{ℕ, String, Bool, true, false, [], ◌∷◌, leb, if◌then◌else◌}
use re_master.Prelude.Text.{◌<>◌}
use re_master.Errors.Types.{Error, plain, redis_nil}
use re_master.Exec.{Result, ok, err, Exec, pure, raise, attempt, ◌>>=◌}
use re_master.Redis.{Redis, incr, expire}

abbrev pub max_login_attempts : ℕ
max_login_attempts = 5

-- 15 minutes.
abbrev pub lockout_duration : ℕ
lockout_duration = 900000000000

abbrev pub attempts_key : String → String
attempts_key email = "login:attempts:" <> email

-- The comparison is `err == redis.Nil`.
abbrev pub is_redis_nil : Error → Bool
is_redis_nil redis_nil = true
is_redis_nil _ = false

module _ {W : Type 0} (r : Redis W) where
  -- What follows the query; the Boolean is true where the login may go on.
  abbrev checked : String → Result ℕ → Exec W (Bool × ℕ)
  checked key (err e) = if is_redis_nil e then pure (true, 0) else raise e
  checked key (ok count) =
      if leb max_login_attempts count
      then (do
        left ← attempt (r.ttl key)
        raise (plain ("too many login attempts, try again in " <> r.duration_text left)))
      else pure (true, count)

  unfoldable pub check_login_attempts : String → Exec W (Bool × ℕ)
  unfolding ◌>>=◌
  check_login_attempts email = do
    found ← attempt (r.get_int (attempts_key email))
    checked (attempts_key email) found

  unfoldable pub increment_login_attempts : String → Exec W (Unit {0})
  increment_login_attempts email =
      r.pipeline (incr (attempts_key email) ∷ expire (attempts_key email) lockout_duration ∷ [])

  unfoldable pub reset_login_attempts : String → Exec W (Unit {0})
  reset_login_attempts email = r.del (attempts_key email)
