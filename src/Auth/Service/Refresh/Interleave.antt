-- ===== src/Auth/Service/Refresh/Interleave.antt =====
-- Exchanges of one refresh token that run at the same time (`RefreshToken` of service.go): the steps
-- of any number of clients in any order.
use re_master.Prelude.{◌≤◌, String, ◌≡◌, ◌≢◌, refl, ◌∙◌, true, false, Option, some, arith}
use re_master.Errors.Types.{to_error, new_unauthorized_error}
use re_master.Exec.{ok, err}
use re_master.Auth.Models.{RefreshToken, RefreshTokenResponse, RequestMetadata}
use re_master.Auth.Platform.{Platform}
use re_master.Auth.Jwt.{JwtUtils}
use re_master.Auth.Repository.{find_refresh_token, revoke_refresh_token}
use re_master.Auth.Service.Refresh.{usable_token, reissue, refresh_token}
use re_master.Auth.Service.Refresh.Laws.{
  StoresToken, usable_token-eq-ok, usable_token_revoked, revoke_refresh_token-eq-ok, reissue-Holds,
}

module _ {W : Type 0} (p : Platform W) (j : JwtUtils) (token : String)
    (stored : W → Option RefreshToken) where
  -- A step of some client's exchange of the token: the check, whatever its outcome, the revocation
  -- that follows it, or the issue of a new pair, if it succeeds with another token.
  pub data Step : W → W → Type 0 where
    checks : (w : W) → Step w (usable_token p token w).1
    revokes :
        (w : W) (s : RefreshToken)
        → stored w ≡ some s
        → (revoke_refresh_token p s.id w).0 ≡ ok tt
        → Step w (revoke_refresh_token p s.id w).1
    reissues :
        (w w' : W) (old : RefreshToken) (metadata : RequestMetadata) (r : RefreshTokenResponse)
        → reissue p j old metadata w ≡ (ok r, w')
        → r.refresh_token ≢ token
        → Step w w'

  pub data Steps : W → W → Type 0 where
    done : (w : W) → Steps w w
    then : {w w' w'' : W} → Step w w' → Steps w' w'' → Steps w w''

  -- The token's document is there and revoked.
  pub record IsRevoked (w : W) : Type 0 where
    pub document : RefreshToken
    pub there : stored w ≡ some document
    pub revoked : document.is_revoked ≡ true

module _ {W : Type 0} {p : Platform W} {token : String} {stored : W → Option RefreshToken}
    (laws : StoresToken p token stored) (j : JwtUtils) where
  -- A check leaves the document as it is, whether it passes or fails.
  stored-usable_token : (w : W) → stored (usable_token p token w).1 ≡ stored w
  unfolding usable_token find_refresh_token
  stored-usable_token w =
      ground (arith, laws.after_find w, laws.after_now (p.tokens_find_one token w).1)

  Step-IsRevoked :
      {w w' : W}
      → IsRevoked p j token stored w
      → Step p j token stored w w'
      → IsRevoked p j token stored w'
  Step-IsRevoked r (checks w) = record {
    document = r.document;
    there = stored-usable_token w ∙ r.there;
    revoked = r.revoked;
  }
  Step-IsRevoked r (revokes w s there marked) = record {
    document = record s { is_revoked = true };
    there = revoke_refresh_token-eq-ok laws w s there marked;
    revoked = refl;
  }
  Step-IsRevoked r (reissues w w' old metadata response made differs) = record {
    document = r.document;
    there = reissue-Holds laws j r.document old metadata w made differs r.there;
    revoked = r.revoked;
  }

  Steps-IsRevoked :
      {w w' : W}
      → IsRevoked p j token stored w
      → Steps p j token stored w w'
      → IsRevoked p j token stored w'
  Steps-IsRevoked r (done w) = r
  Steps-IsRevoked r (then step rest) = Steps-IsRevoked (Step-IsRevoked r step) rest

  -- With what the database does for the token's document (`StoresToken`): once one exchange has
  -- revoked a token, an exchange that starts later is refused as revoked,
  -- whatever steps of other exchanges of the token, any number of them and in any order, lie between.
  pub revoked_for_good :
      (metadata : RequestMetadata) (w w' : W) (s : RefreshToken)
      → stored w ≡ some s
      → (revoke_refresh_token p s.id w).0 ≡ ok tt
      → Steps p j token stored (revoke_refresh_token p s.id w).1 w'
      → (refresh_token p j token metadata w').0
        ≡ err (to_error (new_unauthorized_error "refresh token has been revoked"))
  unfolding refresh_token
  revoked_for_good metadata w w' s there marked steps =
      let start : IsRevoked p j token stored (revoke_refresh_token p s.id w).1 = record {
        document = record s { is_revoked = true };
        there = revoke_refresh_token-eq-ok laws w s there marked;
        revoked = refl;
      } in
      let r = Steps-IsRevoked start steps in
      rw (usable_token_revoked laws w' r.document r.there r.revoked)

module _ {W : Type 0} {p : Platform W} {token : String} {stored : W → Option RefreshToken}
    (laws : StoresToken p token stored) where
  passes :
      (w : W) (s : RefreshToken)
      → stored w ≡ some s
      → s.is_revoked ≡ false
      → (p.now (p.tokens_find_one token w).1).0 ≤ s.expires_at
      → (usable_token p token w).0 ≡ ok s
  unfolding usable_token find_refresh_token
  passes w s there fresh early = ground (arith, laws.found w s there)

  -- The check and the revocation are two steps: a second exchange that is checked between them passes
  -- the check too, with the same document, if the token has not expired by then.
  second_check_passes :
      (w : W) (s : RefreshToken)
      → (usable_token p token w).0 ≡ ok s
      → let w' = (usable_token p token w).1 in
        (p.now (p.tokens_find_one token w').1).0 ≤ s.expires_at → (usable_token p token w').0 ≡ ok s
  second_check_passes w s first early =
      let (there, fresh, _, kept) = usable_token-eq-ok laws w first in
      passes (usable_token p token w).1 s (kept ∙ there) fresh early
