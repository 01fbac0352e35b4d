-- ===== src/Auth/Cache/RefreshTokens.antt =====
-- services/auth/cache/refresh_token_store.go
pub mod Laws
pub mod RoundTrip
use re_master.Prelude.{ℕ, String, Bool, false, List, [], ◌∷◌, ◌==◌, if◌then◌else◌}
use re_master.Prelude.Int.{sub_ℕ}
use re_master.Prelude.Text.{◌<>◌}
use re_master.Errors.Types.{Error, plain}
use re_master.Exec.{Result, ok, err, Exec, lift, read, or_fail, ◌>>=◌}
use re_master.Auth.Platform.{Platform, RefreshTokenData}
use re_master.Auth.Cache.RateLimiter.{is_redis_nil}

abbrev pub token_key : String → String
token_key token = "refresh:token:" <> token

abbrev absent : Error → Error
absent e = if is_redis_nil e then plain "refresh token not found or expired" else e

module _ {W : Type 0} (p : Platform W) where
  -- `time.Until` may be negative, and the client is asked to store it as it is.
  unfoldable pub save_refresh_token : ℕ → String → ℕ → Exec W (Unit {0})
  unfolding ◌>>=◌
  save_refresh_token user_id token expires_at = do
    created_at ← read p.now
    json ← lift (
        p.marshal (record {
          user_id = p.hex user_id;
          token = token;
          expires_at = expires_at;
          created_at = created_at;
        }))
    t ← read p.now
    p.redis.set (token_key token) json (sub_ℕ expires_at t)

  unfoldable pub find_refresh_token : String → Exec W RefreshTokenData
  unfolding ◌>>=◌
  find_refresh_token token = do
    json ← or_fail (p.redis.get (token_key token)) absent
    lift (p.unmarshal json)

  unfoldable pub revoke_refresh_token : String → Exec W (Unit {0})
  revoke_refresh_token token = p.redis.del (token_key token)

  -- Whether a stored value belongs to the user; a value that cannot be read or decoded does not.
  abbrev belongs : String → Result RefreshTokenData → Bool
  belongs hex_id (err e) = false
  belongs hex_id (ok stored) = stored.user_id == hex_id

  abbrev decoded : Result String → Result RefreshTokenData
  decoded (err e) = err e
  decoded (ok json) = p.unmarshal json

  -- One round of the loop over the keys. The result of the deletion is dropped.
  unfoldable pub revoke_if_owned : String → String → W → W
  revoke_if_owned hex_id key w =
      let (found, w₁) = p.redis.get key w in
      if belongs hex_id (decoded found) then (p.redis.del key w₁).1 else w₁

  unfoldable pub revoke_keys : String → List String → W → W
  unfolding revoke_if_owned
  revoke_keys hex_id [] w = w
  revoke_keys hex_id (key ∷ keys) w = revoke_keys hex_id keys (revoke_if_owned hex_id key w)

  unfoldable pub revoke_all_user_tokens : ℕ → Exec W (Unit {0})
  unfolding revoke_keys
  revoke_all_user_tokens user_id w =
      let ((keys, last), w₁) = p.redis.scan "refresh:token:*" 100 w in
      (last, revoke_keys (p.hex user_id) keys w₁)
