-- ===== src/Auth/Service/Logout/Laws.antt =====
-- What `Logout` of service.go does with a refresh token that the service has issued.
use re_master.Prelude.{ℕ, String, len, ◌≡◌, ◌≢◌, ap, List, [], ◌∷◌, length, arith}
use re_master.Prelude.Hex.{encode_to_string, len-encode_to_string}
use re_master.Errors.Types.{Error, to_error, new_validation_error}
use re_master.Exec.{ok, err}
use re_master.Auth.Models.{LogoutRequest}
use re_master.Auth.Platform.{Platform}
use re_master.Auth.Jwt.{JwtUtils, generate_refresh_token}
use re_master.Auth.Service.Logout.{logout}

module _ {W : Type 0} (p : Platform W) where
  -- `rand.Read` fills the whole slice.
  abbrev pub Fills : Type 0
  Fills = (w : W) (bytes : List ℕ) → (p.rand_read 32 w).0 ≡ ok bytes → length bytes ≡ 32

  -- `ObjectIDFromHex` fails on a text that has not 24 characters.
  abbrev pub RejectsLength : Type 0
  RejectsLength = (s : String) → len s ≢ 24 → (e : Error) × (p.object_id_from_hex s ≡ err e)

module _ {W : Type 0} (p : Platform W) (j : JwtUtils) where
  issued_bytes :
      (w : W) {token : String}
      → (generate_refresh_token p j w).0 ≡ ok token
      → (bytes : List ℕ) × ((p.rand_read 32 w).0 ≡ ok bytes) × (encode_to_string bytes ≡ token)
  unfolding generate_refresh_token
  issued_bytes w h = ground arith

  len-generate_refresh_token :
      Fills p
      → (w : W) {token : String} → (generate_refresh_token p j w).0 ≡ ok token
      → len token ≡ 64
  len-generate_refresh_token fills w {token} h =
      let (bytes, read, same) = issued_bytes w h in
      omega (arith, fills w bytes read, len-encode_to_string bytes, ap len same)

  -- If `rand.Read` fills its slice and `ObjectIDFromHex` fails on texts that have not 24 characters,
  -- then a logout with a refresh token that the service issued is refused as invalid, and nothing is
  -- revoked: the token is not the identifier that it is taken for.
  pub logout_issued_token :
      Fills p
      → RejectsLength p
      → (w₀ : W) (req : LogoutRequest) → (generate_refresh_token p j w₀).0 ≡ ok req.refresh_token
      → (w : W)
      → logout p req w ≡ (
        err (
            to_error (
              new_validation_error "invalid refresh token id"
                (("refresh_token", req.refresh_token) ∷ []))),
        w,
      )
  unfolding logout
  logout_issued_token fills rejects w₀ req issued w =
      let (e, bad) =
        rejects req.refresh_token (omega (arith, len-generate_refresh_token fills w₀ issued)) in
      rw bad
