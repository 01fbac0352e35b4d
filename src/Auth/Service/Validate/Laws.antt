-- ===== src/Auth/Service/Validate/Laws.antt =====
-- A token that generateAccessToken of utils/jwt.go has signed, and what `ValidateToken` of service.go makes
-- of it.
use re_master.Prelude.{
  ℕ, ◌+◌, ◌≤◌, ◌<◌, String, ◌≡◌, refl, ap, true, some, ltb, Bool-cases, inl, inr, arith,
  if◌then◌else◌,
}
use re_master.Prelude.Int.{negsuc}
use re_master.Errors.Types.{Error, to_error, caused, new_database_error, new_unauthorized_error}
use re_master.Exec.{Result, ok, err}
use re_master.Auth.Models.{User, ValidateTokenResponse}
use re_master.Auth.Platform.{Platform, by_id}
use re_master.Auth.Jwt.{
  JwtUtils, new_claims, whole_seconds, generate_access_token, validate_access_token,
}
use re_master.Auth.Repository.{get_by_id, find_error}
use re_master.Auth.Service.Validate.{validate_token}

-- What golang-jwt promises of the tokens that the service signs, by the clock that it reads: such a token is
-- read with its key as the claims that were signed, before their registered expiry, and refused from
-- then on.
pub record Signs {W : Type 0} (p : Platform W) (clock : W → ℕ) : Type 0 where
  pub reads :
      (key text id email type : String) (expires issued : ℕ) (w : W)
      → p.jwt_sign key (new_claims id email type expires issued) ≡ ok text
      → clock w < whole_seconds expires
      → (p.jwt_parse key text w).0
        ≡ ok (record { claims = some (new_claims id email type expires issued); valid = true })
  pub refuses :
      (key text id email type : String) (expires issued : ℕ) (w : W)
      → p.jwt_sign key (new_claims id email type expires issued) ≡ ok text
      → whole_seconds expires ≤ clock w
      → (e : Error) × ((p.jwt_parse key text w).0 ≡ err e)

-- The report on the answer of the database to the query for the user.
abbrev pub reported : {W : Type 0} → Platform W → Result User → Result ValidateTokenResponse
reported p (ok user) = ok (record {
  valid = true;
  user_id = p.hex user.id;
  user_type = user.user_type;
  is_active = user.is_active;
  is_verified = user.is_verified;
  expires_at = negsuc 62135596799;
})
reported p (err e) = err (
    to_error (
      new_database_error "failed to fetch user" (caused (find_error "failed to get user by id" e))))

module _ {W : Type 0} {p : Platform W} {clock : W → ℕ} (laws : Signs p clock) (j : JwtUtils) where
  generated-signed :
      (id : String) (user : User) (w : W) {access : String} {w₁ : W}
      → generate_access_token p j id user.email user.user_type w ≡ (ok access, w₁)
      → (issued : ℕ) × (p.jwt_sign j.secret_key
            (new_claims id user.email user.user_type ((p.now w).0 + j.access_token_ttl) issued)
          ≡ ok access)
  unfolding generate_access_token
  generated-signed id user w {access} h =
      ((p.now (p.now w).1).0, ap (λ (r : Result String × W). r.0) h)

  validated_before :
      (user : User) (access : String) (expires issued : ℕ) (v : W) (found : Result User)
      → (p.jwt_parse j.secret_key access v).0
        ≡ ok (record {
          claims = some (new_claims (p.hex user.id) user.email user.user_type expires issued);
          valid = true;
        })
      → p.object_id_from_hex (p.hex user.id) ≡ ok user.id
      → (p.users_find_one (by_id user.id) (p.jwt_parse j.secret_key access v).1).0 ≡ found
      → (validate_token p j access v).0 ≡ reported p found
  unfolding validate_token validate_access_token get_by_id new_claims
  validated_before user access expires issued v (ok u) parsed named found =
      rw (parsed, named, found) refl
  validated_before user access expires issued v (err e) parsed named found =
      rw (parsed, named, found) refl

  validated_after :
      (access : String) (v : W) (e : Error)
      → (p.jwt_parse j.secret_key access v).0 ≡ err e
      → (validate_token p j access v).0
        ≡ err (to_error (new_unauthorized_error "invalid or expired token"))
  unfolding validate_token validate_access_token
  validated_after access v e parsed = rw parsed refl

  -- With what golang-jwt promises (`Signs`), and if the user's identifier is read back from its hex
  -- form: the validation of an access token that was generated for a user reports, while the clock is
  -- before the token's expiry in whole seconds, on the answer of the database to the query for that
  -- user: the user as the database holds it, active or not, or that it could not be fetched; from then
  -- on the token is refused. The expiry that is reported is the first second of the year 1, whenever
  -- the token expires.
  pub validate_issued_token :
      (user : User) (w v : W) {access : String} {w₁ : W}
      → p.object_id_from_hex (p.hex user.id) ≡ ok user.id
      → generate_access_token p j (p.hex user.id) user.email user.user_type w ≡ (ok access, w₁)
      → (validate_token p j access v).0 ≡ (
          if ltb (clock v) (whole_seconds ((p.now w).0 + j.access_token_ttl))
          then reported p (p.users_find_one (by_id user.id) (p.jwt_parse j.secret_key access v).1).0
          else err (to_error (new_unauthorized_error "invalid or expired token")))
  validate_issued_token user w v {access} named h =
      let id = p.hex user.id in
      let expires = (p.now w).0 + j.access_token_ttl in
      let (issued, signed) = generated-signed id user w h in
      elim (Bool-cases (ltb (clock v) (whole_seconds expires))) [
        | inl before ↦
            let parsed =
              laws.reads j.secret_key access id user.email user.user_type expires issued v signed
                (ground (arith, before)) in
            rw before (validated_before user access expires issued v _ parsed named refl)
        | inr after ↦
            let (e, refused) =
              laws.refuses j.secret_key access id user.email user.user_type expires issued v signed
                (ground (arith, after)) in
            rw after (validated_after access v e refused)
      ]
