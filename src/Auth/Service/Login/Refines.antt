-- ===== src/Auth/Service/Login/Refines.antt =====
-- What a login of services/auth/services/service.go leaves as it was once its password is right, for the
-- series of logins of Auth.Service.Login.Series.
use re_master.Prelude.{ℕ, String, ◌≡◌, ◌∙◌, Bool, true, false, [], ◌∷◌}
use re_master.Prelude.Int.{ℤ}
use re_master.Errors.Types.{Error, no_documents}
use re_master.Exec.{Result, ok, err}
use re_master.Exec.Keeps.{Keeps, keeps_rules}
use re_master.Auth.Models.{User, RefreshToken, RequestMetadata}
use re_master.Auth.Platform.{Platform, by_id, set_last_login_at, set_last_login_ip}
use re_master.Auth.Jwt.{JwtUtils}
use re_master.Auth.Repository.{update_login_info, save_refresh_token}
use re_master.Auth.Cache.RefreshTokens as TokenStore
use re_master.Auth.Cache.RateLimiter.{attempts_key}
use re_master.Auth.Service.Tokens.Frame.{
  generate_tokens-Keeps, token_model-Keeps, auth_response-Keeps,
}
use re_master.Auth.Service.Login.{open_session}
use re_master.Auth.Service.Login.BruteForce.{Counts}

-- Whether the password is right for the answer of the database to the query for the user.
abbrev pub is_ok : Result (Unit {0}) → Bool
is_ok (ok u) = true
is_ok (err e) = false

abbrev pub accepts : {W : Type 0} → Platform W → Result User → String → Bool
accepts p (ok user) password = is_ok (p.bcrypt_compare user.password password)
accepts p (err e) password = false

module _ {W : Type 0} (p : Platform W) (email : String) (count : W → ℕ)
    (answer : W → Result User) where
  -- The counter, and the passwords that are right.
  abbrev pub view : W → ℕ × (String → Bool)
  view w = (count w, accepts p (answer w))

  -- Beside what `Counts` says: the database answers with the user or that there is none, a reset deletes
  -- the counter, and what a login writes and reads after its password was right, the update of the
  -- last login included, changes neither the counter nor the password.
  pub record Serves : Type 0 where
    pub counts : Counts p email count answer
    pub answers : (w : W) (e : Error) → answer w ≡ err e → e ≡ no_documents
    pub after_reset :
        (w : W)
        → let w' = (p.redis.del (attempts_key email) w).1 in (count w' ≡ 0) × (answer w' ≡ answer w)
    pub after_now : (w : W) → view (p.now w).1 ≡ view w
    pub after_rand : (w : W) → view (p.rand_read 32 w).1 ≡ view w
    pub after_set :
        (token text : String) (d : ℤ) (w : W)
        → view (p.redis.set (TokenStore.token_key token) text d w).1 ≡ view w
    pub after_update :
        (id t : ℕ) (ip : String) (w : W)
        → view (p.users_update_one (by_id id) (set_last_login_at t ∷ set_last_login_ip ip ∷ []) w).1
          ≡ view w
    pub after_new_id : (w : W) → view (p.new_object_id w).1 ≡ view w
    pub after_insert : (t : RefreshToken) (w : W) → view (p.tokens_insert_one t w).1 ≡ view w

module _ {W : Type 0} {p : Platform W} {email : String} {count : W → ℕ} {answer : W → Result User}
    (laws : Serves p email count answer) (j : JwtUtils) where
  abbrev See : ℕ × (String → Bool) → W → Type 0
  See v w = view p email count answer w ≡ v

  module _ (v : ℕ × (String → Bool)) where
    now-See : (w : W) → See v w → See v (p.now w).1
    now-See w h = laws.after_now w ∙ h

    new_id-See : (w : W) → See v w → See v (p.new_object_id w).1
    new_id-See w h = laws.after_new_id w ∙ h

    rand-See : Keeps (See v) (p.rand_read 32)
    rand-See = record { at = λ w h. laws.after_rand w ∙ h }

    set-See :
        (token text : String) (d : ℤ)
        → Keeps (See v) (p.redis.set (TokenStore.token_key token) text d)
    set-See token text d = record { at = λ w h. laws.after_set token text d w ∙ h }

    update-See :
        (id t : ℕ) (ip : String)
        → Keeps
            (See v)
            (p.users_update_one (by_id id) (set_last_login_at t ∷ set_last_login_ip ip ∷ []))
    update-See id t ip = record { at = λ w h. laws.after_update id t ip w ∙ h }

    insert-See : (t : RefreshToken) → Keeps (See v) (p.tokens_insert_one t)
    insert-See t = record { at = λ w h. laws.after_insert t w ∙ h }

    save_in_redis-See :
        (id : ℕ) (token : String) (t : ℕ)
        → Keeps (See v) (TokenStore.save_refresh_token p id token t)
    unfolding TokenStore.save_refresh_token
    save_in_redis-See id token t = search (keeps_rules, now-See, set-See) depth 9

    update_login_info-See : (id : ℕ) (ip : String) → Keeps (See v) (update_login_info p id ip)
    unfolding update_login_info
    update_login_info-See id ip = search (keeps_rules, now-See, update-See)

    save-See : (t : RefreshToken) → Keeps (See v) (save_refresh_token p t)
    unfolding save_refresh_token
    save-See t = search (keeps_rules, new_id-See, insert-See)

    pub open_session-See :
        (user : User) (metadata : RequestMetadata) → Keeps (See v) (open_session p j user metadata)
    unfolding open_session
    open_session-See user metadata =
        search
          (
            keeps_rules,
            now-See,
            (generate_tokens-Keeps p j now-See rand-See),
            save_in_redis-See,
            update_login_info-See,
            save-See,
            (token_model-Keeps p j now-See),
            (auth_response-Keeps p j now-See),
          )
          depth 12
