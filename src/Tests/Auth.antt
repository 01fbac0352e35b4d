-- ===== src/Tests/Auth.antt =====
-- Instances of the theorems on services/auth, and runs of its operations, on the platform in memory.
use re_master.Prelude.{String, ◌≡◌, refl, ◌+◌, none, ltb, if◌then◌else◌, List, [], ◌∷◌, arith, All}
use re_master.Prelude.Int.{pos}
use re_master.Prelude.Maps.{insert, erase}
use re_master.Prelude.Text.{◌<>◌, first_is}
use re_master.Auth.Jwt.{JwtUtils}
use re_master.Errors.Types.{
  Error, to_error, new_unauthorized_error, new_too_many_requests_error, plain,
}
use re_master.Exec.{ok, err}
use re_master.Auth.Models.{User, RefreshToken, LoginRequest, AuthResponse, to_response}
use re_master.Auth.Cache.RateLimiter.{attempts_key, check_login_attempts, reset_login_attempts}
use re_master.Auth.Cache.RefreshTokens as TokenStore
use re_master.Auth.Repository.{get_by_email, update_login_info, save_refresh_token}
use re_master.Prelude.Hex.{encode_to_string}
use re_master.Auth.Platform.{by_email}
use re_master.Auth.Service.Tokens.{no_metadata, generate_tokens, token_model, auth_response}
use re_master.Auth.Service.Login.{authenticate_user, check_attempts}
use re_master.Auth.Service.Login.Laws.{Below, authenticate_user_sound}
use re_master.Auth.Service.Login.Session.{whole_milliseconds, login_refreshes}
use re_master.Auth.Service.Refresh.{usable_token}
use re_master.Auth.Service.Login.BruteForce.{Refutes, try_all, brute_force_locked}
use re_master.Samples.{
  World, platform, config, start, ada, old_token, zeros, find_user, find_token, change_where,
}
use re_master.Samples.Laws.{platform-Counts, dated_platform, dated_platform-MakesToken}

abbrev good_login : LoginRequest
good_login = record { email = "ada@example.org"; password = "lovelace1" }

abbrev issued : String
issued = "0000000000000000000000000000000000000000000000000000000000000000"

abbrev login_response : AuthResponse
login_response = record {
  user = to_response platform.hex ada;
  access_token = "jwt:000000000000000000000001";
  refresh_token = issued;
  expires_at = pos 0;
  token_type = "Bearer";
}

-- The world after a login: one more token, one identifier spent.
abbrev after_login : World
after_login = record start {
  tokens =
      old_token
      ∷ record old_token { id = 10; token = issued; expires_at = 86405; created_at = 5 }
      ∷ [];
  next_id = 11;
  entries = ("refresh:token:" <> issued, issued) ∷ [];
}

login_works :
    authenticate_user platform config good_login no_metadata start
    ≡ (ok login_response, after_login)
unfolding authenticate_user find_user change_where to_response check_login_attempts
    reset_login_attempts get_by_email generate_tokens token_model auth_response encode_to_string
    zeros update_login_info save_refresh_token TokenStore.save_refresh_token insert erase first_is
login_works = refl

authenticate_user_sound_example :
    Below platform config (platform.redis.get_int (attempts_key good_login.email) start).0
    × ((user : User) × ((get_by_email platform good_login.email
            (check_attempts platform good_login.email start).1).0
          ≡ ok user)
        × (platform.bcrypt_compare user.password good_login.password ≡ ok tt)
        × (login_response.user ≡ to_response platform.hex user))
authenticate_user_sound_example =
    authenticate_user_sound platform config good_login no_metadata start login_works

new_token : find_token issued start.tokens ≡ none
unfolding find_token
new_token = refl

-- With a time to live of a day.
abbrev daily : JwtUtils
daily = record config { refresh_token_ttl = 86400000000000 }

abbrev dated_login : World
dated_login = record after_login {
  tokens =
      old_token
      ∷ record old_token { id = 10; token = issued; expires_at = 86400000000000; created_at = 0 }
      ∷ [];
}

dated_login_works :
    authenticate_user dated_platform daily good_login no_metadata start
    ≡ (ok login_response, dated_login)
unfolding authenticate_user find_user change_where to_response check_login_attempts
    reset_login_attempts get_by_email generate_tokens token_model auth_response encode_to_string
    zeros update_login_info save_refresh_token TokenStore.save_refresh_token insert erase first_is
dated_login_works = refl

login_refreshes_example :
    (user : User) × (login_response.user ≡ to_response platform.hex user)
    × ((d : RefreshToken) × (d.user_id ≡ user.id)
        × ((v : World) × (d.expires_at
              ≡ whole_milliseconds ((platform.now v).0 + daily.refresh_token_ttl)))
        × ((usable_token dated_platform issued dated_login).0 ≡ (
            if ltb d.expires_at 5
            then err (to_error (new_unauthorized_error "refresh token has expired"))
            else ok d)))
login_refreshes_example =
    login_refreshes daily good_login no_metadata start (dated_platform-MakesToken issued) new_token
      dated_login_works

abbrev guesses : List String
guesses = "a" ∷ "b" ∷ "c" ∷ "d" ∷ "e" ∷ []

guesses-wrong : All (Refutes platform (find_user (by_email "ada@example.org") start.users)) guesses
unfolding find_user
guesses-wrong =
    let e : Error = plain "hashedPassword is not the hash" in
    ((e, refl), ((e, refl), ((e, refl), ((e, refl), ((e, refl), tt)))))

brute_force_locked_example :
    (message : String) × ((authenticate_user platform config good_login no_metadata
        (try_all platform config "ada@example.org" no_metadata guesses start)).0
      ≡ err (to_error (new_too_many_requests_error message)))
brute_force_locked_example =
    brute_force_locked platform config "ada@example.org" no_metadata
      (platform-Counts "ada@example.org") guesses "lovelace1" start guesses-wrong (omega arith)
      (omega arith)
