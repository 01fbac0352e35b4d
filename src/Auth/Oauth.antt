-- ===== src/Auth/Oauth.antt =====
-- services/auth/oauth/provider.go; the commented-out half of the file is not modelled.
use re_master.Prelude.{String, Bool, Option, none, some, List, [], ◌∷◌, nat_eq, if◌then◌else◌}
use re_master.Prelude.Maps.{lookup}
use re_master.Prelude.Text.{◌<>◌, join, fields}
use re_master.Prelude.Hex.{decimal}
use re_master.Errors.Types.{plain, wrapped}
use re_master.Exec.{Result, ok, err, Exec, pure, raise, lift, or_fail, ◌>>=◌, ◌>>◌}
use re_master.Auth.Platform.{Platform, ClaimValue, string, other_value}

-- What a provider says of the owner of a token.
pub record Profile : Type 0 where
  pub email : String
  pub first_name : String
  pub last_name : String
  pub picture : String

-- `value, _ := claims[key].(string)`
abbrev text_claim : Option ClaimValue → String
text_claim (some (string s)) = s
text_claim (some other_value) = ""
text_claim none = ""

-- The first and the last name of a full name that consists of the words.
abbrev named : String → List String → String × String
named full [] = (full, "")
named full (w ∷ []) = (full, "")
named full (w ∷ rest) = (w, join " " rest)

unfoldable pub split_name : String → String × String
unfolding fields join
split_name full = named full (fields full)

unfoldable pub google_profile : List (String × ClaimValue) → Profile
unfolding split_name lookup
google_profile claims =
    let (first, last) = split_name (text_claim (lookup "name" claims)) in
    record {
      email = text_claim (lookup "email" claims);
      first_name = first;
      last_name = last;
      picture = text_claim (lookup "picture" claims);
    }

pub record GoogleProvider : Type 0 where
  pub client_id : String

pub record FacebookProvider : Type 0 where
  pub app_id : String
  pub app_secret : String

-- The interface `OAuthProvider`, by its implementations.
pub data Provider : Type 0 where
  google : GoogleProvider → Provider
  facebook : FacebookProvider → Provider

pub record OauthConfig : Type 0 where
  pub google_client_id : String
  pub facebook_app_id : String
  pub facebook_app_secret : String

unfoldable pub new_provider_factory : OauthConfig → List (String × Provider)
new_provider_factory cfg =
    ("google", google (record { client_id = cfg.google_client_id }))
    ∷ (
      "facebook",
      facebook (record { app_id = cfg.facebook_app_id; app_secret = cfg.facebook_app_secret }),
    )
    ∷ []

abbrev supported : String → Option Provider → Result Provider
supported name (some provider) = ok provider
supported name none = err (plain ("provider " <> name <> " not supported"))

unfoldable pub get_provider : List (String × Provider) → String → Result Provider
unfolding lookup
get_provider factory name = supported name (lookup name factory)

-- `if !passes { return nil, fmt.Errorf(message) }`
abbrev require : {W : Type 0} → Bool → String → Exec W (Unit {0})
require passes message = if passes then pure tt else raise (plain message)

module _ {W : Type 0} (p : Platform W) where
  unfoldable pub verify_google : GoogleProvider → String → Exec W Profile
  unfolding google_profile ◌>>=◌
  verify_google provider id_token = do
    claims ←
        or_fail (p.idtoken_validate id_token provider.client_id)
          (wrapped "google: token validation failed")
    pure (google_profile claims)

  abbrev debug_url : FacebookProvider → String → String
  debug_url provider access_token =
      "https://graph.facebook.com/debug_token?input_token=" <> access_token <> "&access_token="
      <> provider.app_id <> "|" <> provider.app_secret

  abbrev user_url : String → String
  user_url access_token =
      "https://graph.facebook.com/me?fields=id,first_name,last_name,email,picture&access_token="
      <> access_token

  unfoldable pub verify_facebook : FacebookProvider → String → Exec W Profile
  unfolding decimal ◌>>=◌
  verify_facebook provider access_token = do
    debug ←
        or_fail (p.http_get (debug_url provider access_token))
          (wrapped "facebook: debug request failed")
    require (nat_eq debug.status_code 200)
        ("facebook: debug request failed with status " <> decimal debug.status_code)
    is_valid ←
        or_fail (lift (p.decode_debug debug.body))
          (wrapped "facebook: failed to decode debug response")
    require is_valid "facebook: token is invalid"
    resp ← or_fail (p.http_get (user_url access_token)) (wrapped "facebook: user request failed")
    require (nat_eq resp.status_code 200)
        ("facebook: user request failed with status " <> decimal resp.status_code)
    user ←
        or_fail (lift (p.decode_user resp.body))
          (wrapped "facebook: failed to decode user response")
    pure (record {
      email = user.email;
      first_name = user.first_name;
      last_name = user.last_name;
      picture = user.picture_url;
    })

  unfoldable pub verify_id_token : Provider → String → Exec W Profile
  unfolding verify_google verify_facebook
  verify_id_token (google provider) token = verify_google provider token
  verify_id_token (facebook provider) token = verify_facebook provider token
