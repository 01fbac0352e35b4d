-- ===== src/Auth/Jwt.antt =====
-- services/auth/utils/jwt.go
use re_master.Prelude.{ℕ, ◌+◌, ◌*◌, ◌/◌, String, Bool, Option, none, some, if◌then◌else◌}
use re_master.Prelude.Hex.{encode_to_string}
use re_master.Errors.Types.{plain}
use re_master.Exec.{Exec, pure, raise, lift, read, ◌>>=◌}
use re_master.Auth.Models.{zero_time, at}
use re_master.Auth.Platform.{Platform, Claims}

-- Durations are in nanoseconds.
pub record JwtUtils : Type 0 where
  pub secret_key : String
  pub access_token_ttl : ℕ
  pub refresh_token_ttl : ℕ

-- The claims of a new token. `NewNumericDate` cuts a time to whole seconds.
abbrev pub whole_seconds : ℕ → ℕ
whole_seconds t = t / 1000000000 * 1000000000

unfoldable pub new_claims : String → String → String → ℕ → ℕ → Claims
new_claims user_id email user_type expires issued = record {
  user_id = user_id;
  email = email;
  user_type = user_type;
  expires_at = zero_time;
  registered_expires_at = at (whole_seconds expires);
  issued_at = at (whole_seconds issued);
}

-- `claims, ok := token.Claims.(*CustomClaims); !ok || !token.Valid`
abbrev pub valid_claims : Option Claims → Bool → Option Claims
valid_claims none valid = none
valid_claims (some claims) valid = if valid then some claims else none

module _ {W : Type 0} (p : Platform W) (j : JwtUtils) where
  unfoldable pub generate_access_token : String → String → String → Exec W String
  unfolding new_claims ◌>>=◌
  generate_access_token user_id email user_type = do
    expires ← read p.now
    issued ← read p.now
    lift (
        p.jwt_sign j.secret_key
          (new_claims user_id email user_type (expires + j.access_token_ttl) issued))

  unfoldable pub generate_refresh_token : Exec W String
  unfolding ◌>>=◌
  generate_refresh_token = do bytes ← p.rand_read 32; pure (encode_to_string bytes)

  -- On claims that are not valid it returns `nil, err` with a nil `err`: none.
  unfoldable pub parse_refresh_token : String → Exec W (Option Claims)
  unfolding ◌>>=◌
  parse_refresh_token token = do
    parsed ← p.jwt_parse j.secret_key token
    pure (valid_claims parsed.claims parsed.valid)

  abbrev or_invalid : Option Claims → Exec W Claims
  or_invalid none = raise (plain "invalid token")
  or_invalid (some claims) = pure claims

  unfoldable pub validate_access_token : String → Exec W Claims
  unfolding ◌>>=◌
  validate_access_token token = do
    parsed ← p.jwt_parse j.secret_key token
    or_invalid (valid_claims parsed.claims parsed.valid)
