-- ===== src/Auth/Service/Register/Laws.antt =====
-- What a successful registration of service.go has checked and created.
use re_master.Prelude.{String, ◌≡◌, sym, true, false, arith}
use mathlib.Core.Path.{subst}
use re_master.Errors.Chain.{is_no_documents}
use re_master.Exec.{Result, ok, err}
use re_master.Exec.Laws.{bind-eq-ok}
use re_master.Auth.Models.{
  User, UserResponse, RegisterRequest, RequestMetadata, AuthResponse, to_response,
  validate_register_request,
}
use re_master.Auth.Platform.{Platform}
use re_master.Auth.Jwt.{JwtUtils}
use re_master.Auth.Repository.{get_by_email}
use re_master.Auth.Service.Tokens.{generate_tokens, token_model, auth_response}
use re_master.Auth.Service.Register.{
  must_be_new, require_new, create_with_retry, check_request, register_user, create_user, new_user,
  hash_password, save_token,
}
use re_master.Auth.Service.Register.Retry.{Retries, Created, create_with_retry-Created}

-- The database has answered that there is no such document.
abbrev pub IsMissing : Result User → Type 0
IsMissing (ok user) = ⊥
IsMissing (err e) = is_no_documents e ≡ true

-- A response that is about a new user with the data of the request.
pub record Answers (req : RegisterRequest) (r : UserResponse) : Type 0 where
  pub email : r.email ≡ req.email
  pub first_name : r.first_name ≡ req.first_name
  pub last_name : r.last_name ≡ req.last_name
  pub phone : r.phone ≡ req.phone
  pub user_type : r.user_type ≡ req.user_type
  pub active : r.is_active ≡ true
  pub not_verified : r.is_verified ≡ false

module _ {W : Type 0} (p : Platform W) where
  must_be_new-IsMissing :
      (r : Result User) (w : W) {u : Unit {0}} → (must_be_new p r w).0 ≡ ok u → IsMissing r
  unfolding require_new
  must_be_new-IsMissing (ok user) w h = absurd (ground arith)
  must_be_new-IsMissing (err e) w h = ground arith

  require_new-IsMissing :
      (email : String) (w : W) {u : Unit {0}}
      → (require_new p email w).0 ≡ ok u
      → IsMissing (get_by_email p email w).0
  unfolding require_new
  require_new-IsMissing email w h =
      must_be_new-IsMissing (get_by_email p email w).0 (get_by_email p email w).1 h

  check_request-eq-ok :
      (req : RegisterRequest) (w : W) {u : Unit {0}}
      → (check_request p req w).0 ≡ ok u
      → (validate_register_request p.parse_address req ≡ ok tt) × ((check_request p req w).1 ≡ w)
  unfolding check_request
  check_request-eq-ok req w h = ground arith

  to_response-Created :
      (req : RegisterRequest) (hashed : String) (user : User)
      → Created user (new_user req hashed)
      → Answers req (to_response p.hex user)
  unfolding to_response new_user
  to_response-Created req hashed user c = record {
    email = c.same.email;
    first_name = c.same.first_name;
    last_name = c.same.last_name;
    phone = c.same.phone;
    user_type = c.same.user_type;
    active = c.active;
    not_verified = c.not_verified;
  }

  auth_response-user :
      (j : JwtUtils) (user : User) (access refresh : String) (w : W) {resp : AuthResponse} {w' : W}
      → auth_response p j user access refresh w ≡ (ok resp, w')
      → (resp.user ≡ to_response p.hex user) × (resp.refresh_token ≡ refresh)
  unfolding auth_response
  auth_response-user j user access refresh w h = ground arith

module _ {W : Type 0} (p : Platform W) (j : JwtUtils) (retries : Retries p) where
  register_user-Answers :
      (req : RegisterRequest) (metadata : RequestMetadata) (w : W) {resp : AuthResponse} {w' : W}
      → register_user p j req metadata w ≡ (ok resp, w')
      → IsMissing (get_by_email p req.email w).0 × Answers req resp.user
  unfolding register_user
  register_user-Answers req metadata w h =
      let (u, new, h₂) = bind-eq-ok (require_new p req.email) _ w h in
      let (hashed, _, h₃) = bind-eq-ok (hash_password p req.password) _ _ h₂ in
      let (user, stored, h₄) = bind-eq-ok (create_with_retry p (new_user req hashed)) _ _ h₃ in
      let ((access, refresh), _, h₅) = bind-eq-ok (generate_tokens p j user) _ _ h₄ in
      let (model, _, h₆) = bind-eq-ok (token_model p j user.id refresh metadata) _ _ h₅ in
      let (_, _, h₇) = bind-eq-ok (save_token p model) _ _ h₆ in
      let created = create_with_retry-Created p retries (new_user req hashed) _ stored in
      let (about, _) = auth_response-user p j user access refresh _ h₇ in
      (
        require_new-IsMissing p req.email w new,
        subst (λ (r : UserResponse). Answers req r) (sym about)
            (to_response-Created p req hashed user created),
      )

  -- If `backoff.Retry` makes at most the allowed runs of its operation and returns the result of the
  -- last (`Retries`), then a registration that succeeds had a valid request, the database held no user with its e-mail
  -- address when it was asked, and the response is about a user with the data of the request that
  -- is active and not verified.
  pub create_user_sound :
      (req : RegisterRequest) (metadata : RequestMetadata) (w : W) {resp : AuthResponse} {w' : W}
      → create_user p j req metadata w ≡ (ok resp, w')
      → (validate_register_request p.parse_address req ≡ ok tt)
        × IsMissing (get_by_email p req.email w).0
        × Answers req resp.user
  unfolding create_user
  create_user_sound req metadata w {resp} {w'} h =
      let (u, checked, h₁) = bind-eq-ok (check_request p req) _ w h in
      let (valid, same) = check_request-eq-ok p req w checked in
      let (missing, answers) =
        register_user-Answers req metadata w
          (subst (λ (v : W). register_user p j req metadata v ≡ (ok resp, w')) same h₁) in
      (valid, missing, answers)
