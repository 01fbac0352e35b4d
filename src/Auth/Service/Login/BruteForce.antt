-- ===== src/Auth/Service/Login/BruteForce.antt =====
-- A series of wrong passwords for one e-mail address, against the counter of rate_limiter.go.
use re_master.Prelude.{
  ℕ, ◌+◌, ◌<◌, ◌≤◌, String, ◌≡◌, refl, ap, sym, ◌∙◌, List, [], ◌∷◌, length, arith, leb, Bool-cases,
  inl, inr, All,
}
use Prim.Native.Nat.{min}
use mathlib.Core.Path.{subst}
use re_master.Errors.Types.{
  Error, no_documents, redis_nil, to_error, new_too_many_requests_error, new_unauthorized_error,
}
use re_master.Exec.{Result, ok, err}
use re_master.Redis.{incr, expire}
use re_master.Auth.Models.{User, RequestMetadata, AuthResponse}
use re_master.Auth.Platform.{Platform, by_email}
use re_master.Auth.Jwt.{JwtUtils}
use re_master.Auth.Repository.{get_by_email}
use re_master.Errors.Chain.{is_no_documents}
use re_master.Auth.Cache.RateLimiter.{
  check_login_attempts, increment_login_attempts, attempts_key, max_login_attempts,
  lockout_duration,
}
use re_master.Auth.Service.Login.{check_attempts, check_password, authenticate_user}
use re_master.Auth.Service.Login.Lockout.{authenticate_user_locked}

-- What Redis and the database do for one e-mail address, while the servers can be reached, the
-- counter's key does not expire and no other client writes: `count` is the number that the key
-- holds, 0 if there is none, and `answer` is the answer to the query for the user. `after_get` and
-- the like say that the operations of a failed login change nothing but the counter.
pub record Counts {W : Type 0} (p : Platform W) (email : String) (count : W → ℕ)
    (answer : W → Result User) : Type 0 where
  pub missing : (w : W) → count w ≡ 0 → (p.redis.get_int (attempts_key email) w).0 ≡ err redis_nil
  pub present : (w : W) → 0 < count w → (p.redis.get_int (attempts_key email) w).0 ≡ ok (count w)
  pub finds : (w : W) → (p.users_find_one (by_email email) w).0 ≡ answer w
  pub after_get :
      (w : W)
      → (count (p.redis.get_int (attempts_key email) w).1 ≡ count w)
        × (answer (p.redis.get_int (attempts_key email) w).1 ≡ answer w)
  pub after_ttl :
      (w : W)
      → (count (p.redis.ttl (attempts_key email) w).1 ≡ count w)
        × (answer (p.redis.ttl (attempts_key email) w).1 ≡ answer w)
  pub after_find :
      (w : W)
      → (count (p.users_find_one (by_email email) w).1 ≡ count w)
        × (answer (p.users_find_one (by_email email) w).1 ≡ answer w)
  pub after_incr :
      (w : W)
      → let w' =
          (p.redis.pipeline
            (incr (attempts_key email) ∷ expire (attempts_key email) lockout_duration ∷ [])
            w).1 in
        (count w' ≡ count w + 1) × (answer w' ≡ answer w)

-- The answer of the database lets no login with the password succeed: there is no such user, or
-- the password is not the user's.
abbrev pub Refutes : {W : Type 0} → Platform W → Result User → String → Type 0
Refutes p (ok user) password = (e : Error) × (p.bcrypt_compare user.password password ≡ err e)
Refutes p (err e) password = e ≡ no_documents

module _ {W : Type 0} (p : Platform W) (j : JwtUtils) (email : String)
    (metadata : RequestMetadata) where
  -- The world after a login with each password in turn.
  abbrev pub try_all : List String → W → W
  try_all [] w = w
  try_all (password ∷ passwords) w =
      try_all passwords
        (authenticate_user p j (record { email = email; password = password }) metadata w).1

module _ {W : Type 0} {p : Platform W} {email : String} {count : W → ℕ} {answer : W → Result User}
    (laws : Counts p email count answer) where
  pub check_attempts_open :
      (w : W)
      → count w < max_login_attempts
      → check_attempts p email w ≡ (ok tt, (p.redis.get_int (attempts_key email) w).1)
  unfolding check_attempts check_login_attempts
  check_attempts_open w few = ground (arith, laws.missing w, laws.present w)

  -- What a rejected password leaves.
  abbrev Counted : W → W → Type 0
  Counted w w' = (count w' ≡ count w + 1) × (answer w' ≡ answer w)

  after_reject :
      (w : W)
      → Counted w
          (p.redis.pipeline
            (incr (attempts_key email) ∷ expire (attempts_key email) lockout_duration ∷ [])
            (p.users_find_one (by_email email) w).1).1
  after_reject w =
      let found = laws.after_find w in
      let counted = laws.after_incr (p.users_find_one (by_email email) w).1 in
      (omega (arith, found.0, counted.0), counted.1 ∙ found.1)

  check_password_refuted :
      (password : String) (w : W) (r : Result User)
      → (p.users_find_one (by_email email) w).0 ≡ r
      → Refutes p r password
      → ((check_password p (record { email = email; password = password }) w).0
          ≡ err (to_error (new_unauthorized_error "invalid email or password")))
        × Counted w (check_password p (record { email = email; password = password }) w).1
  unfolding check_password get_by_email increment_login_attempts is_no_documents
  check_password_refuted password w (ok user) found (e, differs) =
      rw (found, differs) (refl, after_reject w)
  check_password_refuted password w (err e) found missing =
      rw (found, missing) (refl, after_reject w)

module _ {W : Type 0} (p : Platform W) (j : JwtUtils) (email : String) (metadata : RequestMetadata)
    {count : W → ℕ} {answer : W → Result User} (laws : Counts p email count answer) where
  -- Below the limit, and under the same assumptions (`Counts`), a login with a wrong password or an
  -- unknown address is answered with 401, counted once, and leaves the answer of the database as it was.
  pub wrong_password :
      (password : String) (w : W)
      → Refutes p (answer w) password
      → count w < max_login_attempts
      → let (result, w') =
          authenticate_user p j (record { email = email; password = password }) metadata w in
        (result ≡ err (to_error (new_unauthorized_error "invalid email or password")))
        × (count w' ≡ count w + 1)
        × (answer w' ≡ answer w)
  unfolding authenticate_user
  wrong_password password w wrong few =
      let w₁ = (p.redis.get_int (attempts_key email) w).1 in
      let read = laws.after_get w in
      let (refused, (counted, same)) =
        check_password_refuted laws password w₁ (answer w) (laws.finds w₁ ∙ read.1) wrong in
      rw (check_attempts_open laws w few, refused)
        (refl, omega (arith, counted, read.0), same ∙ read.1)

  pub locked_password :
      (password : String) (w : W)
      → max_login_attempts ≤ count w
      → let w' =
          (authenticate_user p j (record { email = email; password = password }) metadata w).1 in
        (count w' ≡ count w) × (answer w' ≡ answer w)
  locked_password password w full =
      let w₁ = (p.redis.get_int (attempts_key email) w).1 in
      rw
        (authenticate_user_locked p j (record { email = email; password = password }) metadata w
          (count w) (laws.present w (omega arith)) full)
        ((laws.after_ttl w₁).0 ∙ (laws.after_get w).0, (laws.after_ttl w₁).1 ∙ (laws.after_get w).1)

  count-try_all :
      (passwords : List String) (w : W)
      → All (Refutes p (answer w)) passwords
      → count w ≤ max_login_attempts
      → count (try_all p j email metadata passwords w)
        ≡ min max_login_attempts (count w + length passwords)
  count-try_all [] w wrong few = omega arith
  count-try_all (password ∷ passwords) w (h, hs) few =
      elim (Bool-cases (leb max_login_attempts (count w))) [
        | inl full ↦
            let at_limit : max_login_attempts ≤ count w = ground arith in
            let w' =
              (authenticate_user p j (record { email = email; password = password }) metadata
                w).1 in
            let (e, same) = locked_password password w at_limit in
            let still = subst (λ (r : Result User). All (Refutes p r) passwords) (sym same) hs in
            omega (arith, e, at_limit, count-try_all passwords w' still (omega (arith, e)))
        | inr more ↦
            let below : count w < max_login_attempts = ground arith in
            let w' =
              (authenticate_user p j (record { email = email; password = password }) metadata
                w).1 in
            let (_, e, same) = wrong_password password w h below in
            let still = subst (λ (r : Result User). All (Refutes p r) passwords) (sym same) hs in
            omega (arith, e, count-try_all passwords w' still (omega (arith, e, below)))
      ]

  -- From a counter that is not above the limit, after five or more wrong passwords in a row, while the
  -- counter's key does not expire, no other client writes and the servers answer (`Counts`), a login
  -- with any password, the right one too, is refused as one of too many requests.
  pub brute_force_locked :
      (passwords : List String) (password : String) (w : W)
      → All (Refutes p (answer w)) passwords
      → count w ≤ max_login_attempts
      → max_login_attempts ≤ length passwords
      → (message : String) × ((authenticate_user p j
            (record { email = email; password = password })
            metadata
            (try_all p j email metadata passwords w)).0
          ≡ err (to_error (new_too_many_requests_error message)))
  brute_force_locked passwords password w wrong few many =
      let w' = try_all p j email metadata passwords w in
      let total = count-try_all passwords w wrong few in
      (
        _,
        ap (λ (r : Result AuthResponse × W). r.0)
            (authenticate_user_locked p j (record { email = email; password = password }) metadata
              w' (count w') (laws.present w' (omega (arith, total))) (omega (arith, total))),
      )
