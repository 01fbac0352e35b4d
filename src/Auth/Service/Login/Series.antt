-- ===== src/Auth/Service/Login/Series.antt =====
-- The simulation of a series of logins by the counter of Auth.Service.Login.Gate.
use re_master.Prelude.{
  ℕ, ◌<◌, ◌≤◌, String, ◌≡◌, refl, sym, ap, ◌∙◌, Bool, true, false, List, [], ◌∷◌, map, arith, leb,
  Bool-cases, inl, inr,
}
use mathlib.Core.Path.{subst}
use re_master.Errors.Types.{
  Error, no_documents, to_error, new_too_many_requests_error, new_unauthorized_error, plain,
}
use re_master.Prelude.Text.{◌<>◌}
use re_master.Errors.Chain.{message}
use re_master.Exec.{Result, ok, err}
use re_master.Auth.Models.{User, LoginRequest, RequestMetadata, AuthResponse}
use re_master.Auth.Platform.{Platform, by_email}
use re_master.Auth.Jwt.{JwtUtils}
use re_master.Auth.Repository.{get_by_email}
use re_master.Auth.Cache.RateLimiter.{reset_login_attempts, attempts_key, max_login_attempts}
use re_master.Auth.Service.Login.{check_attempts, check_password, open_session, authenticate_user}
use re_master.Auth.Service.Login.Gate.{Verdict, locked, refused, admitted, gate, gates}
use re_master.Auth.Service.Login.Lockout.{authenticate_user_locked}
use re_master.Auth.Service.Login.BruteForce.{
  Refutes, wrong_password, locked_password, check_attempts_open, try_all,
}
use re_master.Auth.Service.Login.Refines.{Serves, view, accepts, is_ok, open_session-See}

module _ {W : Type 0} (p : Platform W) (j : JwtUtils) (email : String)
    (metadata : RequestMetadata) where
  abbrev pub login_with : String → W → Result AuthResponse × W
  login_with password =
      authenticate_user p j (record { email = email; password = password }) metadata

  -- The message of a login that is refused at the limit, with the time left.
  abbrev lock_text : W → String
  lock_text w =
      let (left, w') =
        p.redis.ttl (attempts_key email) (p.redis.get_int (attempts_key email) w).1 in
      message p.library_text
        (plain ("too many login attempts, try again in " <> p.redis.duration_text left))

  -- The state in which a login with a password ends its two checks.
  abbrev checked_in : String → W → W
  checked_in password w =
      (check_password p (record { email = email; password = password })
        (check_attempts p email w).1).1

  module _ (answer : W → Result User) where
    -- What the result of a login in a state is for each verdict: the error of too many requests, with the
    -- time left; that of a wrong password or address; or what comes of opening, in the state that the
    -- checks leave, a session for the user that the database answers with.
    abbrev pub Agrees : Verdict → String → W → Result AuthResponse → Type 0
    Agrees locked password w result =
        result ≡ err (to_error (new_too_many_requests_error (lock_text w)))
    Agrees refused password w result =
        result ≡ err (to_error (new_unauthorized_error "invalid email or password"))
    Agrees admitted password w result =
        (user : User) × (answer w ≡ ok user)
        × (result ≡ (open_session p j user metadata (checked_in password w)).0)

    -- The results of logins with these passwords, one after the other, are those of the verdicts.
    abbrev pub AllAgree : List Verdict → List String → W → Type 0
    AllAgree [] [] w = Unit
    AllAgree [] (password ∷ passwords) w = ⊥
    AllAgree (v ∷ vs) [] w = ⊥
    AllAgree (v ∷ vs) (password ∷ passwords) w =
        Agrees v password w (login_with password w).0
        × AllAgree vs passwords (login_with password w).1

module _ {W : Type 0} {p : Platform W} {email : String} {count : W → ℕ} {answer : W → Result User}
    (laws : Serves p email count answer) (j : JwtUtils) (metadata : RequestMetadata) where
  abbrev See : ℕ × (String → Bool) → W → Type 0
  See v w = view p email count answer w ≡ v

  -- A password that is not right refutes the answer.
  not_accepts-Refutes :
      (password : String) (r : Result User)
      → ((e : Error) → r ≡ err e → e ≡ no_documents)
      → accepts p r password ≡ false
      → Refutes p r password
  not_accepts-Refutes password (err e) known wrong = known e refl
  not_accepts-Refutes password (ok user) known wrong =
      mismatch (p.bcrypt_compare user.password password) wrong
    where
      mismatch : (r : Result (Unit {0})) → is_ok r ≡ false → (e : Error) × (r ≡ err e)
      mismatch (ok u) h = cc
      mismatch (err e) h = (e, refl)

  -- After a right password, and the reset of the counter.
  check_password_right :
      (password : String) (w : W) (r : Result User)
      → (p.users_find_one (by_email email) w).0 ≡ r
      → accepts p r password ≡ true
      → (user : User) × (r ≡ ok user)
        × (check_password p (record { email = email; password = password }) w ≡ (
          ok user,
          (p.redis.del (attempts_key email) (p.users_find_one (by_email email) w).1).1,
        ))
  unfolding check_password get_by_email reset_login_attempts
  check_password_right password w (err e) found right = cc
  check_password_right password w (ok user) found right = (user, refl, ground (arith, found))

  abbrev Simulates : Verdict × ℕ → (String → Bool) → String → W → Type 0
  Simulates (verdict, next) right password w =
      let (result, w') = login_with p j email metadata password w in
      Agrees p j email metadata answer verdict password w result × See (next, right) w'

  admitted_step :
      (password : String) (w : W)
      → count w < max_login_attempts
      → accepts p (answer w) password ≡ true
      → Simulates (admitted, 0) (accepts p (answer w)) password w
  unfolding authenticate_user
  admitted_step password w few right =
      let w₁ = (p.redis.get_int (attempts_key email) w).1 in
      let read = laws.counts.after_get w in
      let found = laws.counts.after_find w₁ in
      let w₂ = (p.users_find_one (by_email email) w₁).1 in
      let reset = laws.after_reset w₂ in
      let w₃ = (p.redis.del (attempts_key email) w₂).1 in
      let (user, answered, checked) =
        check_password_right password w₁ (answer w) (laws.counts.finds w₁ ∙ read.1) right in
      let same : answer w₃ ≡ answer w = reset.1 ∙ found.1 ∙ read.1 in
      let seen : See (0, accepts p (answer w)) w₃ = λ i. (reset.0 i, accepts p (same i)) in
      let passed = check_attempts_open laws.counts w few in
      let req : LoginRequest = record { email = email; password = password } in
      let ends : checked_in p j email metadata password w ≡ w₃ =
        ap (λ (r : Result (Unit {0}) × W). (check_password p req r.1).1) passed
        ∙ ap (λ (r : Result User × W). r.1) checked in
      rw (passed, checked)
        (
          (user, answered, sym (ap (λ v. (open_session p j user metadata v).0) ends)),
          (open_session-See laws j (0, accepts p (answer w)) user metadata).at w₃ seen,
        )

  -- One login.
  step :
      (password : String) (w : W)
      → Simulates (gate (accepts p (answer w) password) (count w)) (accepts p (answer w)) password w
  step password w = elim (Bool-cases (leb 5 (count w))) [
    | inl full ↦
        let at_limit : max_login_attempts ≤ count w = ground arith in
        let (e, same) = locked_password p j email metadata laws.counts password w at_limit in
        rw full (
          ap (λ (r : Result AuthResponse × W). r.0)
              (authenticate_user_locked p j (record { email = email; password = password }) metadata
                w (count w) (laws.counts.present w (omega arith)) at_limit),
          λ i. (e i, accepts p (same i)),
        )
    | inr more ↦ elim (Bool-cases (accepts p (answer w) password)) [
      | inl right ↦ rw (more, right) (admitted_step password w (ground arith) right)
      | inr wrong ↦
          let refuted = not_accepts-Refutes password (answer w) (laws.answers w) wrong in
          let (result, e, same) =
            wrong_password p j email metadata laws.counts password w refuted (ground arith) in
          rw (more, wrong) (result, λ i. (e i, accepts p (same i)))
    ]
  ]

  refine_from :
      (passwords : List String) (v : ℕ × (String → Bool)) (w : W)
      → See v w
      → let (verdicts, last) = gates (map v.1 passwords) v.0 in
        AllAgree p j email metadata answer verdicts passwords w
        × See (last, v.1) (try_all p j email metadata passwords w)
  refine_from [] v w seen = (tt, seen)
  refine_from (password ∷ passwords) v w seen =
      let (agrees, seen') =
        subst (λ u. Simulates (gate (u.1 password) u.0) u.1 password w) seen (step password w) in
      let w' = (login_with p j email metadata password w).1 in
      let (rest, last) = refine_from passwords ((gate (v.1 password) v.0).1, v.1) w' seen' in
      ((agrees, rest), last)

  -- While the servers answer, the counter does not expire and no other client writes (`Serves`): in a series
  -- of logins for one address, with any passwords, each result is the one that the abstract counter
  -- calls for (`Agrees`): the error of too many requests with the time left, that of a wrong password
  -- or address, or what comes of opening a session for the user of that address in the state that the
  -- checks leave; and the counter in Redis ends as the abstract one; which passwords are right does
  -- not change.
  pub logins_refine :
      (passwords : List String) (w : W)
      → let (verdicts, last) = gates (map (accepts p (answer w)) passwords) (count w) in
        AllAgree p j email metadata answer verdicts passwords w
        × (count (try_all p j email metadata passwords w) ≡ last)
        × (accepts p (answer (try_all p j email metadata passwords w)) ≡ accepts p (answer w))
  logins_refine passwords w =
      let (all, seen) = refine_from passwords (view p email count answer w) w refl in
      (all, ap (λ (v : ℕ × (String → Bool)). v.0) seen, ap (λ (v : ℕ × (String → Bool)). v.1) seen)
