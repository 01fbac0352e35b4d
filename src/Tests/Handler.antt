-- ===== src/Tests/Handler.antt =====
-- An instance of the theorem on services/auth/handlers/handler.go, on the platform in memory.
use re_master.Auth.Oauth.{new_provider_factory}
use re_master.Auth.Proto as Pb
use re_master.Auth.Handler.{
  registration, login, oauth_login, refresh_token, validate_token, logout, change_password,
}
use re_master.Auth.Handler.Laws.{FailsWithStatus, rpcs-FailsWithStatus}
use re_master.Auth.Oauth.{OauthConfig}
use re_master.Samples.{platform, config}
use re_master.Samples.Gateway.{caller}

abbrev oauth_config : OauthConfig
oauth_config = record {
  google_client_id = "id";
  facebook_app_id = "app";
  facebook_app_secret = "secret";
}

rpcs-FailsWithStatus_example :
    ((req : Pb.RegisterRequest) → FailsWithStatus (registration platform config caller req))
    × ((req : Pb.LoginRequest) → FailsWithStatus (login platform config caller req))
    × ((req : Pb.OauthLoginRequest)
        → FailsWithStatus
            (oauth_login platform config (new_provider_factory oauth_config) caller req))
    × ((req : Pb.RefreshTokenRequest) → FailsWithStatus (refresh_token platform config caller req))
    × ((req : Pb.ValidateTokenRequest) → FailsWithStatus (validate_token platform config req))
    × ((req : Pb.LogoutRequest) → FailsWithStatus (logout platform req))
    × ((req : Pb.ChangePasswordRequest) → FailsWithStatus (change_password platform req))
rpcs-FailsWithStatus_example =
    rpcs-FailsWithStatus platform config (new_provider_factory oauth_config) caller
