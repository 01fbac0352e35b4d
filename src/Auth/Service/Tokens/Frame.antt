-- ===== src/Auth/Service/Tokens/Frame.antt =====
-- What making tokens in services/auth/services/service.go leaves as it was: all that reading the clock and
-- random bytes does.
use re_master.Prelude.{ℕ, String}
use re_master.Exec.Keeps.{Keeps, Keeps-bind, Keeps-pure, keeps_rules}
use re_master.Auth.Models.{User, RequestMetadata}
use re_master.Auth.Platform.{Platform}
use re_master.Auth.Jwt.{JwtUtils, generate_access_token, generate_refresh_token}
use re_master.Auth.Service.Tokens.{generate_tokens, token_model, auth_response}

module _ {W : Type 0} (p : Platform W) (j : JwtUtils) {P : W → Type 0}
    (now_kept : (w : W) → P w → P (p.now w).1) where
  generate_access_token-Keeps :
      (id address type : String) → Keeps P (generate_access_token p j id address type)
  unfolding generate_access_token
  generate_access_token-Keeps id address type = search (keeps_rules, now_kept)

  generate_refresh_token-Keeps : Keeps P (p.rand_read 32) → Keeps P (generate_refresh_token p j)
  unfolding generate_refresh_token
  generate_refresh_token-Keeps rand_kept = search (keeps_rules, rand_kept)

  pub generate_tokens-Keeps :
      Keeps P (p.rand_read 32) → (user : User) → Keeps P (generate_tokens p j user)
  unfolding generate_tokens
  generate_tokens-Keeps rand_kept user =
      Keeps-bind _ _ (generate_access_token-Keeps (p.hex user.id) user.email user.user_type)
        λ access.
          Keeps-bind _ _ (generate_refresh_token-Keeps rand_kept)
            λ refresh. Keeps-pure (access, refresh)

  pub token_model-Keeps :
      (id : ℕ) (text : String) (metadata : RequestMetadata)
      → Keeps P (token_model p j id text metadata)
  unfolding token_model
  token_model-Keeps id text metadata = search (keeps_rules, now_kept)

  pub auth_response-Keeps :
      (user : User) (access refresh : String) → Keeps P (auth_response p j user access refresh)
  unfolding auth_response
  auth_response-Keeps user access refresh = search (keeps_rules, now_kept)
