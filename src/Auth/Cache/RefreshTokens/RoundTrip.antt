-- ===== src/Auth/Cache/RefreshTokens/RoundTrip.antt =====
-- Saving, finding and revoking a token of services/auth/cache/refresh_token_store.go.
use re_master.Prelude.{
  ◌==◌, if◌then◌else◌, String, ◌≡◌, refl, ◌∙◌, ℕ, Option, none, some, eq_iff, arith,
}
use re_master.Prelude.Int.{ℤ, sub_ℕ}
use re_master.Errors.Types.{redis_nil, plain}
use re_master.Exec.{Result, ok, err, continue, read, ◌>>=◌}
use re_master.Auth.Platform.{Platform, RefreshTokenData}
use re_master.Auth.Cache.RefreshTokens.{
  token_key, save_refresh_token, find_refresh_token, revoke_refresh_token,
}

-- What Redis does with its keys, if it answers and no other client writes: `view w k` is the value of a key.
pub record Views {W : Type 0} (p : Platform W) (view : W → String → Option String) : Type 0 where
  pub present : (k v : String) (w : W) → view w k ≡ some v → (p.redis.get k w).0 ≡ ok v
  pub missing : (k : String) (w : W) → view w k ≡ none → (p.redis.get k w).0 ≡ err redis_nil
  pub after_get : (k : String) (w : W) (x : String) → view (p.redis.get k w).1 x ≡ view w x
  pub after_del :
      (k : String) (w : W) (x : String)
      → view (p.redis.del k w).1 x ≡ (if k == x then none else view w x)
  pub after_scan :
      (pattern : String) (n : ℕ) (w : W) (x : String)
      → view (p.redis.scan pattern n w).1 x ≡ view w x

-- What Redis does with a value that it is given, before that expires, and what the JSON library does: it
-- reads back what it has written.
pub record Stores {W : Type 0} (p : Platform W) (view : W → String → Option String) : Type 0 where
  pub after_set :
      (k v : String) (d : ℤ) (w w' : W) → p.redis.set k v d w ≡ (ok tt, w') → view w' k ≡ some v
  pub reads_back :
      (t : RefreshTokenData) (json : String) → p.marshal t ≡ ok json → p.unmarshal json ≡ ok t

-- What `SaveRefreshToken` stores in a state.
abbrev pub data_of : {W : Type 0} → Platform W → ℕ → String → ℕ → W → RefreshTokenData
data_of p user_id token expires_at w = record {
  user_id = p.hex user_id;
  token = token;
  expires_at = expires_at;
  created_at = (p.now w).0;
}

module _ {W : Type 0} {p : Platform W} {view : W → String → Option String} (laws : Views p view)
    (stores : Stores p view) where
  -- What is left of the saving when the token's data is encoded.
  encoded-stored :
      (t : RefreshTokenData) (r : Result String) (key : String) (expires_at : ℕ) (w w' : W)
      → p.marshal t ≡ r
      → continue r (λ json. read p.now >>= λ now. p.redis.set key json (sub_ℕ expires_at now)) w
        ≡ (ok tt, w')
      → (json : String) × (p.unmarshal json ≡ ok t) × (view w' key ≡ some json)
  unfolding ◌>>=◌
  encoded-stored t (err e) key expires_at w w' m h = cc
  encoded-stored t (ok json) key expires_at w w' m h =
      (json, stores.reads_back t json m, stores.after_set key json _ _ w' h)

  save-stored :
      (user_id : ℕ) (token : String) (expires_at : ℕ) (w w' : W)
      → save_refresh_token p user_id token expires_at w ≡ (ok tt, w')
      → (json : String) × (p.unmarshal json ≡ ok (data_of p user_id token expires_at w))
        × (view w' (token_key token) ≡ some json)
  unfolding save_refresh_token ◌>>=◌
  save-stored user_id token expires_at w w' h =
      let t = data_of p user_id token expires_at w in
      encoded-stored t (p.marshal t) (token_key token) expires_at (p.now w).1 w' refl h

  find-present :
      (token json : String) (w : W)
      → view w (token_key token) ≡ some json
      → (find_refresh_token p token w).0 ≡ p.unmarshal json
  unfolding find_refresh_token ◌>>=◌
  find-present token json w there = rw (laws.present (token_key token) json w there) refl

  find-missing :
      (token : String) (w : W)
      → view w (token_key token) ≡ none
      → (find_refresh_token p token w).0 ≡ err (plain "refresh token not found or expired")
  unfolding find_refresh_token ◌>>=◌
  find-missing token w gone = rw (laws.missing (token_key token) w gone) refl

  revoke-missing :
      (token : String) (w : W) → view (revoke_refresh_token p token w).1 (token_key token) ≡ none
  unfolding revoke_refresh_token
  revoke-missing token w =
      let k = token_key token in ground (arith, laws.after_del k w k, (eq_iff k k).1 refl)

  -- With what Redis does with its keys (`Views`), and with a value until that expires, and if the JSON
  -- library reads back what it has written (`Stores`): after a token was saved with success, finding
  -- it gives the user, the token and the expiry that were saved, with the time of the saving, and
  -- after it was found and then revoked, finding it fails as not found or expired.
  pub save-find :
      (user_id : ℕ) (token : String) (expires_at : ℕ) (w w' : W)
      → save_refresh_token p user_id token expires_at w ≡ (ok tt, w')
      → ((find_refresh_token p token w').0 ≡ ok (data_of p user_id token expires_at w))
        × ((find_refresh_token p token
              (revoke_refresh_token p token (find_refresh_token p token w').1).1).0
            ≡ err (plain "refresh token not found or expired"))
  save-find user_id token expires_at w w' h =
      let (json, back, there) = save-stored user_id token expires_at w w' h in
      (
        find-present token json w' there ∙ back,
        find-missing token _ (revoke-missing token (find_refresh_token p token w').1),
      )
