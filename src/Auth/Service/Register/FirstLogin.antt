-- ===== src/Auth/Service/Register/FirstLogin.antt =====
-- A registration and then a login of services/auth/services/service.go, with the same password.
use re_master.Prelude.{ℕ, String, ◌≡◌, refl, ◌∙◌, ap, Option, some, arith}
use mathlib.Core.Path.{subst}
use re_master.Errors.Types.{to_error, new_unauthorized_error}
use re_master.Exec.{Result, ok, err}
use re_master.Exec.Laws.{bind-eq-ok, or_fail-eq-ok}
use re_master.Exec.Keeps.{Keeps, keeps_rules}
use re_master.Auth.Models.{User, RefreshToken, RegisterRequest, RequestMetadata, AuthResponse}
use re_master.Auth.Platform.{Platform, by_email}
use re_master.Auth.Jwt.{JwtUtils}
use re_master.Auth.Repository.{created, stamped, create, get_by_email, save_refresh_token}
use re_master.Auth.Service.Tokens.{generate_tokens, token_model}
use re_master.Auth.Service.Tokens.Frame.{
  generate_tokens-Keeps, token_model-Keeps, auth_response-Keeps,
}
use re_master.Auth.Service.Register.{
  bcrypt_cost, stored, require_new, create_with_retry, check_request, register_user, create_user,
  new_user, hash_password, save_token,
}
use re_master.Auth.Service.Register.Retry.{
  Attempts, last, again, Retries, SameData, create-SameData,
}
use re_master.Auth.Service.Login.{check_password}

-- With a unique index on the address, and while no other client writes: a user that was inserted is found
-- by its address, with its password, which stays as it is when tokens are made and stored; and
-- bcrypt accepts the password of which it has made a hash.
pub record StoresUsers {W : Type 0} (p : Platform W) (email : String) (hash_of : W → Option String)
    : Type 0 where
  pub found :
      (w : W) (hashed : String)
      → hash_of w ≡ some hashed
      → (user : User) × ((p.users_find_one (by_email email) w).0 ≡ ok user)
        × (user.password ≡ hashed)
  pub inserted :
      (user : User) (w w' : W)
      → p.users_insert_one user w ≡ (ok tt, w')
      → user.email ≡ email
      → hash_of w' ≡ some user.password
  pub compares :
      (password hashed : String) (w w' : W)
      → p.bcrypt_generate password bcrypt_cost w ≡ (ok hashed, w')
      → p.bcrypt_compare hashed password ≡ ok tt
  pub after_now : (w : W) → hash_of (p.now w).1 ≡ hash_of w
  pub after_rand : (w : W) → hash_of (p.rand_read 32 w).1 ≡ hash_of w
  pub after_new_id : (w : W) → hash_of (p.new_object_id w).1 ≡ hash_of w
  pub after_token : (t : RefreshToken) (w : W) → hash_of (p.tokens_insert_one t w).1 ≡ hash_of w

-- What the check of a password makes of its comparison with a user's hash.
abbrev pub verdict : User → Result (Unit {0}) → Result User
verdict user (ok u) = ok user
verdict user (err e) = err (to_error (new_unauthorized_error "invalid email or password"))

module _ {W : Type 0} {p : Platform W} {email : String} {hash_of : W → Option String}
    (laws : StoresUsers p email hash_of) where
  abbrev Has : String → W → Type 0
  Has hashed w = hash_of w ≡ some hashed

  created-eq-ok :
      (address : String) (r : Result (Unit {0})) {u : Unit {0}}
      → created address r ≡ ok u
      → r ≡ ok tt
  created-eq-ok address (ok u) h = refl
  created-eq-ok address (err e) h = cc

  create-Has :
      (user : User) (w : W) {u : Unit {0}}
      → (create p (user, w)).0 ≡ ok u
      → user.email ≡ email
      → Has user.password (create p (user, w)).1.1
  unfolding create
  create-Has user w h address =
      let same = create-SameData p user w in
      let (stored, w₁) = stamped p (user, w) in
      let result = p.users_insert_one stored w₁ in
      let done = created-eq-ok stored.email result.0 h in
      laws.inserted stored w₁ result.1 (ap (λ r. (r, result.1)) done) (same.email ∙ address)
      ∙ ap some same.password

  Attempts-Has :
      {k : ℕ} {s : User × W} {r : Result (Unit {0}) × (User × W)} {u : Unit {0}}
      → Attempts (create p) k s r
      → r.0 ≡ ok u
      → s.0.email ≡ email
      → Has s.0.password r.1.1
  Attempts-Has {s} (last {r = r} e) h address =
      subst (λ (t : Result (Unit {0}) × (User × W)). Has s.0.password t.1.1) e
        (create-Has s.0 s.1 (ap (λ (t : Result (Unit {0}) × (User × W)). t.0) e ∙ h) address)
  Attempts-Has {s} (again {user = user} later {r = r} e rest) h address =
      let same : SameData user s.0 =
        subst (λ (t : Result (Unit {0}) × (User × W)). SameData t.1.0 s.0) e
          (create-SameData p s.0 s.1) in
      Attempts-Has rest h (same.email ∙ address) ∙ ap some same.password

  stored-eq-ok :
      (r : Result (Unit {0}) × (User × W)) {user : User}
      → (stored p r).0 ≡ ok user
      → (r.0 ≡ ok tt) × ((stored p r).1 ≡ r.1.1)
  unfolding create_with_retry
  stored-eq-ok (ok u, (user, w)) h = (refl, refl)
  stored-eq-ok (err e, (user, w)) h = cc

  create_with_retry-Has :
      Retries p
      → (given : User) (w : W) {user : User} → (create_with_retry p given w).0 ≡ ok user
      → given.email ≡ email
      → Has given.password (create_with_retry p given w).1
  unfolding create_with_retry
  create_with_retry-Has retries given w h address =
      let runs = p.retry 3 (create p) (given, w) in
      let (done, same) = stored-eq-ok runs h in
      ap hash_of same ∙ Attempts-Has (retries 3 (create p) (given, w)) done address

  module _ (hashed : String) where
    now-Has : (w : W) → Has hashed w → Has hashed (p.now w).1
    now-Has w h = laws.after_now w ∙ h

    new_id-Has : (w : W) → Has hashed w → Has hashed (p.new_object_id w).1
    new_id-Has w h = laws.after_new_id w ∙ h

    rand-Has : Keeps (Has hashed) (p.rand_read 32)
    rand-Has = record { at = λ w h. laws.after_rand w ∙ h }

    token-Has : (t : RefreshToken) → Keeps (Has hashed) (p.tokens_insert_one t)
    token-Has t = record { at = λ w h. laws.after_token t w ∙ h }

    save_token-Has : (t : RefreshToken) → Keeps (Has hashed) (save_token p t)
    unfolding save_token save_refresh_token
    save_token-Has t = search (keeps_rules, new_id-Has, token-Has)

  hash_password-compares :
      (password : String) (w : W) {hashed : String}
      → (hash_password p password w).0 ≡ ok hashed
      → p.bcrypt_compare hashed password ≡ ok tt
  unfolding hash_password
  hash_password-compares password w {hashed} h =
      let made = p.bcrypt_generate password bcrypt_cost w in
      laws.compares password hashed w made.1
        (ap (λ r. (r, made.1)) (or_fail-eq-ok (p.bcrypt_generate password bcrypt_cost) _ w h))

  -- What a registration that succeeds leaves: a hash of the password.
  register_user-Has :
      Retries p
      → (j : JwtUtils) (req : RegisterRequest) (metadata : RequestMetadata) (w : W)
        {resp : AuthResponse} {w' : W}
      → register_user p j req metadata w ≡ (ok resp, w')
      → req.email ≡ email
      → (hashed : String) × (p.bcrypt_compare hashed req.password ≡ ok tt) × Has hashed w'
  unfolding register_user new_user
  register_user-Has retries j req metadata w h address =
      let (u, _, h₂) = bind-eq-ok (require_new p req.email) _ w h in
      let (hashed, made, h₃) = bind-eq-ok (hash_password p req.password) _ _ h₂ in
      let (user, stored, h₄) = bind-eq-ok (create_with_retry p (new_user req hashed)) _ _ h₃ in
      let ((access, refresh), _, h₅) = bind-eq-ok (generate_tokens p j user) _ _ h₄ in
      let (model, _, h₆) = bind-eq-ok (token_model p j user.id refresh metadata) _ _ h₅ in
      let (_, _, h₇) = bind-eq-ok (save_token p model) _ _ h₆ in
      let there = create_with_retry-Has retries (new_user req hashed) _ stored address in
      let kept = (auth_response-Keeps p j (now-Has hashed) user access refresh).at _ (
        (save_token-Has hashed model).at _ (
          (token_model-Keeps p j (now-Has hashed) user.id refresh metadata).at _
            ((generate_tokens-Keeps p j (now-Has hashed) (rand-Has hashed) user).at _ there))) in
      (
        hashed,
        hash_password-compares req.password _ made,
        subst (λ (r : Result AuthResponse × W). Has hashed r.1) h₇ kept,
      )

  check_password-verdict :
      (user : User) (password : String) (w : W) (compared : Result (Unit {0}))
      → (p.users_find_one (by_email email) w).0 ≡ ok user
      → p.bcrypt_compare user.password password ≡ compared
      → (check_password p (record { email = email; password = password }) w).0
        ≡ verdict user compared
  unfolding check_password get_by_email
  check_password-verdict user password w (ok u) found right = ground (arith, found, right)
  check_password-verdict user password w (err e) found wrong = rw (found, wrong) refl

module _ {W : Type 0} {p : Platform W} {hash_of : W → Option String} (retries : Retries p)
    (j : JwtUtils) where
  -- With a unique index, no other client and what bcrypt promises (`StoresUsers`), and with what
  -- `backoff.Retry` promises (`Retries`): after a registration that succeeds, the database holds a user
  -- for the address whose hash belongs to the registered password, a login with that password passes
  -- the check of the password with that user, and one with any other is decided by bcrypt alone: it
  -- passes, or is answered with 401, as the comparison with that hash succeeds or fails.
  pub registered_login :
      (req : RegisterRequest) (metadata : RequestMetadata) (w : W) {resp : AuthResponse} {w' : W}
      → StoresUsers p req.email hash_of
      → create_user p j req metadata w ≡ (ok resp, w')
      → (user : User) × (p.bcrypt_compare user.password req.password ≡ ok tt)
        × ((check_password p (record { email = req.email; password = req.password }) w').0
            ≡ ok user)
        × ((password : String)
            → (check_password p (record { email = req.email; password = password }) w').0
              ≡ verdict user (p.bcrypt_compare user.password password))
  unfolding create_user
  registered_login req metadata w {w'} laws h =
      let (u, _, h₁) = bind-eq-ok (check_request p req) _ w h in
      let (hashed, compares, there) = register_user-Has laws retries j req metadata _ h₁ refl in
      let (user, found, same) = laws.found w' hashed there in
      let right = ap (λ s. p.bcrypt_compare s req.password) same ∙ compares in
      (
        user,
        right,
        check_password-verdict laws user req.password w' (ok tt) found right,
        λ password. check_password-verdict laws user password w' _ found refl,
      )
