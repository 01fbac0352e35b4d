-- ===== src/Auth/Service/Logout/Revokes.antt =====
-- A logout of service.go followed by an exchange of the refresh token whose document it revoked.
use re_master.Prelude.{ℕ, String, ◌≡◌, refl, ap, true, Option, some, arith}
use mathlib.Core.Path.{subst}
use re_master.Errors.Types.{to_error, new_unauthorized_error}
use re_master.Exec.{Result, ok, err}
use re_master.Auth.Models.{LogoutRequest, RefreshToken, RequestMetadata}
use re_master.Auth.Platform.{Platform}
use re_master.Auth.Jwt.{JwtUtils}
use re_master.Auth.Repository.{revoke_refresh_token}
use re_master.Auth.Service.Logout.{logout}
use re_master.Auth.Service.Refresh.{refresh_token}
use re_master.Auth.Service.Refresh.Laws.{
  StoresToken, usable_token_revoked, revoke_refresh_token-eq-ok,
}

module _ {W : Type 0} (p : Platform W) where
  -- A logout that succeeds has revoked the document whose identifier the request's token spells,
  -- and done nothing else.
  logout-revoke_refresh_token :
      (req : LogoutRequest) (w : W) {w' : W} (id : ℕ)
      → p.object_id_from_hex req.refresh_token ≡ ok id
      → logout p req w ≡ (ok tt, w')
      → revoke_refresh_token p id w ≡ (ok tt, w')
  unfolding logout revoke_refresh_token
  logout-revoke_refresh_token req w id e h = ground arith

module _ {W : Type 0} {p : Platform W} {token : String} {stored : W → Option RefreshToken}
    (laws : StoresToken p token stored) (j : JwtUtils) where
  -- With what the database does for the token's document (`StoresToken`): if the refresh token of a
  -- logout request spells the identifier of a stored token's document,
  -- and the logout succeeds, then the exchange of that stored token is refused as revoked.
  pub refresh_after_logout :
      (req : LogoutRequest) (metadata : RequestMetadata) (s : RefreshToken) (w : W) {w' : W}
      → stored w ≡ some s
      → p.object_id_from_hex req.refresh_token ≡ ok s.id
      → logout p req w ≡ (ok tt, w')
      → (refresh_token p j token metadata w').0
        ≡ err (to_error (new_unauthorized_error "refresh token has been revoked"))
  unfolding refresh_token
  refresh_after_logout req metadata s w {w'} there named h =
      let revoked = logout-revoke_refresh_token p req w s.id named h in
      let marked =
        revoke_refresh_token-eq-ok laws w s there
          (ap (λ (r : Result (Unit {0}) × W). r.0) revoked) in
      let still : stored w' ≡ some (record s { is_revoked = true }) =
        subst (λ (v : W). stored v ≡ some (record s { is_revoked = true }))
          (ap (λ (r : Result (Unit {0}) × W). r.1) revoked) marked in
      rw (usable_token_revoked laws w' (record s { is_revoked = true }) still refl)
