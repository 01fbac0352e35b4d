-- ===== src/Auth/Service/Refresh/Laws.antt =====
-- A refresh token can be exchanged once, if the exchanges follow one another (service.go).
use re_master.Prelude.{ℕ, String, ◌≡◌, ◌≢◌, refl, sym, ◌∙◌, true, false, Option, some, arith, ◌≤◌}
use mathlib.Core.Path.{subst}
use re_master.Errors.Types.{to_error, new_unauthorized_error}
use re_master.Exec.{ok, err}
use re_master.Exec.Laws.{bind-eq-ok}
use re_master.Exec.Keeps.{Keeps, keeps_rules}
use re_master.Auth.Models.{RefreshToken, RefreshTokenResponse, RequestMetadata}
use re_master.Auth.Platform.{Platform, by_id}
use re_master.Auth.Jwt.{JwtUtils}
use re_master.Auth.Repository.{
  find_refresh_token, revoke_refresh_token, get_by_id, save_refresh_token,
}
use re_master.Auth.Service.Tokens.{generate_tokens, token_model}
use re_master.Auth.Service.Tokens.Frame.{generate_tokens-Keeps, token_model-Keeps}
use re_master.Auth.Service.Refresh.{
  usable_token, token_owner, save_new_token, refresh_response, reissue, refresh_token,
}

-- What the database does with the document of one refresh token, `stored`, if no other client
-- writes to it: the other operations of an exchange leave it alone, `UpdateOne` sets its field,
-- and an insertion of a token with another text does not change what is found under this one.
pub record StoresToken {W : Type 0} (p : Platform W) (token : String)
    (stored : W → Option RefreshToken) : Type 0 where
  pub found : (w : W) (s : RefreshToken) → stored w ≡ some s → (p.tokens_find_one token w).0 ≡ ok s
  pub is_found :
      (w : W) (s : RefreshToken) → (p.tokens_find_one token w).0 ≡ ok s → stored w ≡ some s
  pub after_find : (w : W) → stored (p.tokens_find_one token w).1 ≡ stored w
  pub after_revoke :
      (w : W) (s : RefreshToken)
      → stored w ≡ some s
      → (p.tokens_set_revoked s.id w).0 ≡ ok tt
      → stored (p.tokens_set_revoked s.id w).1 ≡ some (record s { is_revoked = true })
  pub after_insert :
      (w : W) (other : RefreshToken)
      → other.token ≢ token
      → stored (p.tokens_insert_one other w).1 ≡ stored w
  pub after_user : (w : W) (id : ℕ) → stored (p.users_find_one (by_id id) w).1 ≡ stored w
  pub after_now : (w : W) → stored (p.now w).1 ≡ stored w
  pub after_new_id : (w : W) → stored (p.new_object_id w).1 ≡ stored w
  pub after_rand : (w : W) → stored (p.rand_read 32 w).1 ≡ stored w

module _ {W : Type 0} {p : Platform W} {token : String} {stored : W → Option RefreshToken}
    (laws : StoresToken p token stored) (j : JwtUtils) (s : RefreshToken) where
  abbrev Holds : W → Type 0
  Holds w = stored w ≡ some s

  now-Holds : (w : W) → Holds w → Holds (p.now w).1
  now-Holds w h = laws.after_now w ∙ h

  rand-Holds : Keeps Holds (p.rand_read 32)
  rand-Holds = record { at = λ w h. laws.after_rand w ∙ h }

  user-Holds : (id : ℕ) → Keeps Holds (p.users_find_one (by_id id))
  user-Holds id = record { at = λ w h. laws.after_user w id ∙ h }

  token_owner-Holds : (old : RefreshToken) → Keeps Holds (token_owner p old)
  unfolding token_owner get_by_id
  token_owner-Holds old = search (keeps_rules, user-Holds)

  save_new_token-Holds :
      (other : RefreshToken) → other.token ≢ token → Keeps Holds (save_new_token p other)
  unfolding save_new_token save_refresh_token
  save_new_token-Holds other differs = record {
    at = λ w h.
        laws.after_insert (p.new_object_id w).1 (record other { id = (p.new_object_id w).0 })
          differs
        ∙ laws.after_new_id w
        ∙ h;
  }

  token-token_model :
      (id : ℕ) (text : String) (metadata : RequestMetadata) (w : W) {model : RefreshToken}
      → (token_model p j id text metadata w).0 ≡ ok model
      → model.token ≡ text
  unfolding token_model
  token-token_model id text metadata w h = ground arith

  refresh_response-eq :
      (access refresh : String) (w : W) {r : RefreshTokenResponse} {w' : W}
      → refresh_response p j access refresh w ≡ (ok r, w')
      → (r.refresh_token ≡ refresh) × ((p.now w).1 ≡ w')
  unfolding refresh_response
  refresh_response-eq access refresh w h = ground arith

  -- An exchange that succeeds leaves the document of the old token as it was, if the new token
  -- is another one.
  pub reissue-Holds :
      (old : RefreshToken) (metadata : RequestMetadata) (w : W) {r : RefreshTokenResponse} {w' : W}
      → reissue p j old metadata w ≡ (ok r, w')
      → r.refresh_token ≢ token
      → Holds w
      → Holds w'
  unfolding reissue
  reissue-Holds old metadata w h differs holds =
      let (user, found, h₁) = bind-eq-ok (token_owner p old) _ w h in
      let ((access, refresh), made, h₂) = bind-eq-ok (generate_tokens p j user) _ _ h₁ in
      let (model, built, h₃) = bind-eq-ok (token_model p j user.id refresh metadata) _ _ h₂ in
      let (u, saved, h₄) = bind-eq-ok (save_new_token p model) _ _ h₃ in
      let (told, ends) = refresh_response-eq access refresh _ h₄ in
      let other : model.token ≢ token =
        λ e. differs (told ∙ sym (token-token_model user.id refresh metadata _ built) ∙ e) in
      subst Holds ends (
        now-Holds _ (
          (save_new_token-Holds model other).at _ (
            (token_model-Keeps p j now-Holds user.id refresh metadata).at _ (
              (generate_tokens-Keeps p j now-Holds rand-Holds user).at _
                ((token_owner-Holds old).at w holds)))))

module _ {W : Type 0} {p : Platform W} {token : String} {stored : W → Option RefreshToken}
    (laws : StoresToken p token stored) where
  -- A token is usable only if its document is there, not revoked and not expired.
  pub usable_token-eq-ok :
      (w : W) {s : RefreshToken}
      → (usable_token p token w).0 ≡ ok s
      → (stored w ≡ some s)
        × (s.is_revoked ≡ false)
        × ((p.now (p.tokens_find_one token w).1).0 ≤ s.expires_at)
        × (stored (usable_token p token w).1 ≡ stored w)
  unfolding usable_token find_refresh_token
  usable_token-eq-ok w {s} h =
      ground
        (arith, laws.is_found w s, laws.after_find w, laws.after_now (p.tokens_find_one token w).1)

  pub usable_token_revoked :
      (w : W) (s : RefreshToken)
      → stored w ≡ some s
      → s.is_revoked ≡ true
      → (usable_token p token w).0
        ≡ err (to_error (new_unauthorized_error "refresh token has been revoked"))
  unfolding usable_token find_refresh_token
  usable_token_revoked w s h revoked = rw (laws.found w s h, revoked)

  pub revoke_refresh_token-eq-ok :
      (w : W) (s : RefreshToken)
      → stored w ≡ some s
      → (revoke_refresh_token p s.id w).0 ≡ ok tt
      → stored (revoke_refresh_token p s.id w).1 ≡ some (record s { is_revoked = true })
  unfolding revoke_refresh_token
  revoke_refresh_token-eq-ok w s h done = ground (arith, laws.after_revoke w s)

module _ {W : Type 0} {p : Platform W} {token : String} {stored : W → Option RefreshToken}
    (laws : StoresToken p token stored) (j : JwtUtils) where
  -- With what the database does for the token's document (`StoresToken`): after an exchange of a
  -- refresh token that succeeds, with a new token other than the old one and
  -- no write of another client to the old one's document, a second exchange of the old token is
  -- refused as revoked.
  pub single_use :
      (first second : RequestMetadata) (w : W) {r : RefreshTokenResponse} {w' : W}
      → refresh_token p j token first w ≡ (ok r, w')
      → r.refresh_token ≢ token
      → (refresh_token p j token second w').0
        ≡ err (to_error (new_unauthorized_error "refresh token has been revoked"))
  unfolding refresh_token
  single_use first second w {w'} h differs =
      let (s, usable, h₁) = bind-eq-ok (usable_token p token) _ w h in
      let (u, revoked, h₂) = bind-eq-ok (revoke_refresh_token p s.id) _ _ h₁ in
      let (there, _, _, kept) = usable_token-eq-ok laws w usable in
      let marked = revoke_refresh_token-eq-ok laws _ s (kept ∙ there) revoked in
      let still =
        reissue-Holds laws j (record s { is_revoked = true }) s first _ h₂ differs marked in
      rw (usable_token_revoked laws w' (record s { is_revoked = true }) still refl)
