-- ===== src/Auth/Service/Login/Session.antt =====
-- The refresh token that a login of services/auth/services/service.go gives, and its first exchange.
use re_master.Prelude.{
  ℕ, ◌+◌, ◌*◌, ◌/◌, String, ◌≡◌, refl, sym, ◌∙◌, ap, false, Option, none, some, List, arith, ltb,
  if◌then◌else◌,
}
use re_master.Prelude.Int.{ℤ}
use re_master.Errors.Types.{Error, to_error, new_unauthorized_error}
use re_master.Exec.{ok, err, or_fail, ◌>>=◌}
use re_master.Exec.Laws.{bind-eq-ok, or_fail-eq-ok}
use re_master.Exec.Keeps.{Keeps, keeps_rules}
use re_master.Auth.Models.{
  User, RefreshToken, LoginRequest, RequestMetadata, AuthResponse, to_response,
}
use re_master.Auth.Platform.{Platform, by_email, UserFilter, UserChange}
use re_master.Auth.Jwt.{JwtUtils}
use re_master.Auth.Repository.{
  find_refresh_token, get_by_email, save_refresh_token, update_login_info,
}
use re_master.Auth.Cache.RefreshTokens as TokenStore
use re_master.Auth.Cache.RateLimiter.{attempts_key, check_login_attempts, reset_login_attempts}
use re_master.Auth.Service.Tokens.{generate_tokens, token_model, auth_response}
use re_master.Auth.Service.Tokens.Frame.{generate_tokens-Keeps, token_model-Keeps}
use re_master.Auth.Service.Login.Laws.{open_session-user}
use re_master.Auth.Service.Login.{
  check_attempts, check_password, open_session, authenticate_user, reject,
}
use re_master.Auth.Service.Refresh.{usable_token}
use re_master.Auth.Service.Refresh.Laws.{StoresToken}

-- A time as BSON keeps it, in whole milliseconds.
abbrev pub whole_milliseconds : ℕ → ℕ
whole_milliseconds t = t / 1000000 * 1000000

-- A document as the database keeps it.
abbrev pub in_milliseconds : RefreshToken → RefreshToken
in_milliseconds d = record d {
  expires_at = whole_milliseconds d.expires_at;
  created_at = whole_milliseconds d.created_at;
}

-- Beside what `StoresToken` says of the document of a token: an insertion makes it, if there was none,
-- with times in whole milliseconds, and the other calls of a login leave it alone.
pub record MakesToken {W : Type 0} (p : Platform W) (token : String)
    (stored : W → Option RefreshToken) : Type 0 where
  pub stores : StoresToken p token stored
  pub after_new :
      (w : W) (d : RefreshToken)
      → stored w ≡ none
      → d.token ≡ token
      → (p.tokens_insert_one d w).0 ≡ ok tt
      → stored (p.tokens_insert_one d w).1 ≡ some (in_milliseconds d)
  pub after_get : (key : String) (w : W) → stored (p.redis.get_int key w).1 ≡ stored w
  pub after_del : (key : String) (w : W) → stored (p.redis.del key w).1 ≡ stored w
  pub after_set :
      (key text : String) (d : ℤ) (w : W) → stored (p.redis.set key text d w).1 ≡ stored w
  pub after_query : (f : UserFilter) (w : W) → stored (p.users_find_one f w).1 ≡ stored w
  pub after_update :
      (f : UserFilter) (cs : List UserChange) (w : W)
      → stored (p.users_update_one f cs w).1 ≡ stored w

module _ {W : Type 0} {p : Platform W} {token : String} {stored : W → Option RefreshToken}
    (laws : MakesToken p token stored) (j : JwtUtils) where
  -- There is no document of the token yet.
  abbrev IsNew : W → Type 0
  IsNew w = stored w ≡ none

  now-IsNew : (w : W) → IsNew w → IsNew (p.now w).1
  now-IsNew w h = laws.stores.after_now w ∙ h

  rand-IsNew : Keeps IsNew (p.rand_read 32)
  rand-IsNew = record { at = λ w h. laws.stores.after_rand w ∙ h }

  set-IsNew : (key text : String) (d : ℤ) → Keeps IsNew (p.redis.set key text d)
  set-IsNew key text d = record { at = λ w h. laws.after_set key text d w ∙ h }

  update-IsNew : (f : UserFilter) (cs : List UserChange) → Keeps IsNew (p.users_update_one f cs)
  update-IsNew f cs = record { at = λ w h. laws.after_update f cs w ∙ h }

  check_attempts-IsNew :
      (email : String) (w : W) {u : Unit {0}}
      → (check_attempts p email w).0 ≡ ok u
      → IsNew w
      → IsNew (check_attempts p email w).1
  unfolding check_attempts check_login_attempts ◌>>=◌
  check_attempts-IsNew email w done h = ground (arith, laws.after_get (attempts_key email) w)

  check_password-IsNew :
      (req : LoginRequest) (w : W) {user : User}
      → (check_password p req w).0 ≡ ok user
      → IsNew w
      → IsNew (check_password p req w).1
  unfolding check_password get_by_email reject reset_login_attempts ◌>>=◌
  check_password-IsNew req w done h =
      let w₁ = (p.users_find_one (by_email req.email) w).1 in
      ground
        (arith, laws.after_query (by_email req.email) w, laws.after_del (attempts_key req.email) w₁)

  save_in_redis-IsNew :
      (id : ℕ) (text : String) (t : ℕ) → Keeps IsNew (TokenStore.save_refresh_token p id text t)
  unfolding TokenStore.save_refresh_token
  save_in_redis-IsNew id text t = search (keeps_rules, now-IsNew, set-IsNew) depth 9

  update_login_info-IsNew : (id : ℕ) (ip : String) → Keeps IsNew (update_login_info p id ip)
  unfolding update_login_info
  update_login_info-IsNew id ip = search (keeps_rules, now-IsNew, update-IsNew)

  -- The document that a successful insertion makes.
  save-stored :
      (model : RefreshToken) (f : Error → Error) (w : W) {u : Unit {0}}
      → (or_fail (save_refresh_token p model) f w).0 ≡ ok u
      → model.token ≡ token
      → IsNew w
      → (id : ℕ) × (stored (or_fail (save_refresh_token p model) f w).1
          ≡ some (in_milliseconds (record model { id = id })))
  unfolding save_refresh_token ◌>>=◌
  save-stored model f w done same h =
      let (id, w₁) = p.new_object_id w in
      let d : RefreshToken = record model { id = id } in
      let made = or_fail-eq-ok (save_refresh_token p model) f w done in
      (
        id,
        laws.after_new w₁ d (laws.stores.after_new_id w ∙ h) same
            (or_fail-eq-ok (p.tokens_insert_one d) _ w₁ made),
      )

  -- What is stored of a session: a document of its user that is not revoked, with the time to live that is
  -- configured, from the time of the login on.
  abbrev Opened : User → W → Type 0
  Opened user w =
      (d : RefreshToken) × (stored w ≡ some d)
      × (d.is_revoked ≡ false)
      × (d.user_id ≡ user.id)
      × ((v : W) × (d.expires_at ≡ whole_milliseconds ((p.now v).0 + j.refresh_token_ttl)))

  token_model-Opened :
      (user : User) (text : String) (metadata : RequestMetadata) (w : W) {model : RefreshToken}
      → (token_model p j user.id text metadata w).0 ≡ ok model
      → (model.is_revoked ≡ false)
        × (model.user_id ≡ user.id)
        × (model.token ≡ text)
        × (model.expires_at ≡ (p.now w).0 + j.refresh_token_ttl)
  unfolding token_model
  token_model-Opened user text metadata w h = ground arith

  auth_response-eq :
      (user : User) (access refresh : String) (w : W) {r : AuthResponse} {w' : W}
      → auth_response p j user access refresh w ≡ (ok r, w')
      → (r.refresh_token ≡ refresh) × ((p.now w).1 ≡ w')
  unfolding auth_response
  auth_response-eq user access refresh w h = ground arith

  open_session-Opened :
      (user : User) (metadata : RequestMetadata) (w : W) {resp : AuthResponse} {w' : W}
      → open_session p j user metadata w ≡ (ok resp, w')
      → resp.refresh_token ≡ token
      → IsNew w
      → Opened user w'
  unfolding open_session
  open_session-Opened user metadata w h same new =
      let ((access, refresh), made, h₁) = bind-eq-ok (generate_tokens p j user) _ w h in
      let (t, w₁) = p.now (generate_tokens p j user w).1 in
      let save = TokenStore.save_refresh_token p user.id refresh (t + j.refresh_token_ttl) in
      let (_, _, h₂) = bind-eq-ok save _ w₁ h₁ in
      let w₂ = (update_login_info p user.id metadata.ip_address (save w₁).1).1 in
      let (model, built, h₅) = bind-eq-ok (token_model p j user.id refresh metadata) _ w₂ h₂ in
      let (_, saved, h₆) = bind-eq-ok (or_fail (save_refresh_token p model) _) _ _ h₅ in
      let (told, ends) = auth_response-eq user access refresh _ h₆ in
      let (live, whose, text, until) = token_model-Opened user refresh metadata _ built in
      let still = (token_model-Keeps p j now-IsNew user.id refresh metadata).at _ (
        (update_login_info-IsNew user.id metadata.ip_address).at _ (
          (save_in_redis-IsNew user.id refresh (t + j.refresh_token_ttl)).at w₁
            (now-IsNew _ ((generate_tokens-Keeps p j now-IsNew rand-IsNew user).at w new)))) in
      let (id, there) = save-stored model _ _ saved (text ∙ sym told ∙ same) still in
      (
        in_milliseconds (record model { id = id }),
        ap stored (sym ends) ∙ laws.stores.after_now _ ∙ there,
        live,
        whose,
        (_, ap whole_milliseconds until),
      )

  authenticate_user-Opened :
      (req : LoginRequest) (metadata : RequestMetadata) (w : W) {resp : AuthResponse} {w' : W}
      → authenticate_user p j req metadata w ≡ (ok resp, w')
      → resp.refresh_token ≡ token
      → IsNew w
      → (user : User) × (resp.user ≡ to_response p.hex user) × Opened user w'
  unfolding authenticate_user
  authenticate_user-Opened req metadata w h same new =
      let (_, counted, h₁) = bind-eq-ok (check_attempts p req.email) _ w h in
      let (user, known, h₂) = bind-eq-ok (check_password p req) _ _ h₁ in
      let unused = check_attempts-IsNew req.email w counted new in
      (
        user,
        open_session-user p j user metadata _ h₂,
        open_session-Opened user metadata _ h₂ same (check_password-IsNew req _ known unused),
      )

  usable_token-Opened :
      (w : W) (d : RefreshToken)
      → stored w ≡ some d
      → d.is_revoked ≡ false
      → (usable_token p token w).0 ≡ (
          if ltb d.expires_at (p.now (p.tokens_find_one token w).1).0
          then err (to_error (new_unauthorized_error "refresh token has expired"))
          else ok d)
  unfolding usable_token find_refresh_token ◌>>=◌
  usable_token-Opened w d there live = ground (arith, laws.stores.found w d there, live)

module _ {W : Type 0} {p : Platform W} {stored : W → Option RefreshToken} (j : JwtUtils) where
  -- With what the database does for the token's document (`MakesToken`), and if there was none before: after
  -- a login that succeeds, the refresh token of its response has a document of the user that the
  -- response is about, which expires the configured time after a time that the clock showed, in
  -- whole milliseconds, in which the database keeps times; and the check that an exchange of it
  -- begins with passes with that document, or, if the clock shows a later time than that, is refused
  -- as expired.
  pub login_refreshes :
      (req : LoginRequest) (metadata : RequestMetadata) (w : W) {resp : AuthResponse} {w' : W}
      → MakesToken p resp.refresh_token stored
      → stored w ≡ none
      → authenticate_user p j req metadata w ≡ (ok resp, w')
      → let t = (p.now (p.tokens_find_one resp.refresh_token w').1).0 in
        (user : User) × (resp.user ≡ to_response p.hex user)
        × ((d : RefreshToken) × (d.user_id ≡ user.id)
            × ((v : W) × (d.expires_at ≡ whole_milliseconds ((p.now v).0 + j.refresh_token_ttl)))
            × ((usable_token p resp.refresh_token w').0 ≡ (
                if ltb d.expires_at t
                then err (to_error (new_unauthorized_error "refresh token has expired"))
                else ok d)))
  login_refreshes req metadata w {w'} laws new h =
      let (user, about, (d, there, live, whose, until)) =
        authenticate_user-Opened laws j req metadata w h refl new in
      (user, about, (d, whose, until, usable_token-Opened laws j w' d there live))
