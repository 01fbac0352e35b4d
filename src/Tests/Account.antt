-- ===== src/Tests/Account.antt =====
-- Instances of the theorems on `ValidateToken`, `ChangePassword` and `Logout` of
-- services/auth/services/service.go, and runs of them, on the platform in memory.
use re_master.Prelude.{if◌then◌else◌, ltb, ◌+◌, ◌≡◌, refl, true, some, [], ◌∷◌}
use re_master.Prelude.Hex.{encode_to_string}
use re_master.Errors.Types.{to_error, new_unauthorized_error, new_validation_error}
use re_master.Exec.{ok, err}
use re_master.Auth.Models.{ChangePasswordRequest, LogoutRequest}
use re_master.Auth.Platform.{by_id}
use re_master.Auth.Jwt.{generate_refresh_token}
use re_master.Auth.Repository.{get_by_id, revoke_refresh_token, update_password}
use re_master.Auth.Service.Tokens.{no_metadata}
use re_master.Auth.Service.Refresh.{refresh_token}
use re_master.Auth.Service.Validate.{validate_token}
use re_master.Auth.Service.Validate.Laws.{reported, validate_issued_token}
use re_master.Samples.Tokens.{signing_platform, signing_platform-Signs}
use re_master.Auth.Jwt.{JwtUtils, generate_access_token, whole_seconds}
use re_master.Auth.Service.Password.{change_password}
use re_master.Auth.Service.Password.Laws.{Changed, change_password-Changed}
use re_master.Auth.Service.Logout.{logout}
use re_master.Auth.Service.Logout.Laws.{logout_issued_token}
use re_master.Auth.Service.Logout.Revokes.{refresh_after_logout}
use re_master.Samples.{
  World, platform, config, start, ada, old_token, zeros, first_id, find_user, find_token, revoke,
  change_where,
}
use re_master.Samples.Laws.{platform-StoresToken, platform-Fills, platform-RejectsLength}
use re_master.Tests.Service.{new_token}

-- With a time to live of 900 seconds.
abbrev short_lived : JwtUtils
short_lived = record config { access_token_ttl = 900000000000 }

access_issued :
    generate_access_token signing_platform short_lived
      (platform.hex ada.id)
      ada.email
      ada.user_type
      start
    ≡ (ok "a.b.c", start)
unfolding generate_access_token
access_issued = refl

validate_issued_token_example : (validate_token signing_platform short_lived "a.b.c" start).0 ≡ (
    if ltb 5 (whole_seconds (5 + 900000000000))
    then reported signing_platform (find_user (by_id ada.id) start.users)
    else err (to_error (new_unauthorized_error "invalid or expired token")))
validate_issued_token_example =
    validate_issued_token signing_platform-Signs short_lived ada start start refl access_issued

abbrev new_password : ChangePasswordRequest
new_password = record {
  user_id = first_id;
  old_password = "lovelace1";
  new_password = "engine1843";
}

abbrev after_change : World
after_change = record start { users = record ada { password = "hash:engine1843" } ∷ [] }

change_works : change_password platform new_password start ≡ (ok tt, after_change)
unfolding change_password get_by_id find_user update_password change_where
change_works = refl

change_password-Changed_example : Changed platform new_password start after_change
change_password-Changed_example = change_password-Changed platform new_password start change_works

abbrev logout_request : LogoutRequest
logout_request = record { user_id = first_id; access_token = ""; refresh_token = new_token }

new_token_issued : (generate_refresh_token platform config start).0 ≡ ok new_token
unfolding generate_refresh_token encode_to_string zeros
new_token_issued = refl

logout_issued_token_example : logout platform logout_request start ≡ (
  err (
      to_error
        (new_validation_error "invalid refresh token id" (("refresh_token", new_token) ∷ []))),
  start,
)
logout_issued_token_example =
    logout_issued_token platform config platform-Fills platform-RejectsLength start logout_request
      new_token_issued start

-- The document of a token whose identifier is the one that the request spells.
abbrev first_token : World
first_token = record start { tokens = record old_token { id = 1 } ∷ [] }

abbrev by_document : LogoutRequest
by_document = record logout_request { refresh_token = first_id }

abbrev after_logout : World
after_logout = record start { tokens = record old_token { id = 1; is_revoked = true } ∷ [] }

logout_works : logout platform by_document first_token ≡ (ok tt, after_logout)
unfolding logout revoke_refresh_token revoke
logout_works = refl

old_found : find_token "old" first_token.tokens ≡ some (record old_token { id = 1 })
unfolding find_token
old_found = refl

refresh_after_logout_example :
    (refresh_token platform config "old" no_metadata after_logout).0
    ≡ err (to_error (new_unauthorized_error "refresh token has been revoked"))
refresh_after_logout_example =
    refresh_after_logout (platform-StoresToken "old") config by_document no_metadata
      (record old_token { id = 1 }) first_token old_found refl logout_works
