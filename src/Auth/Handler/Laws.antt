-- ===== src/Auth/Handler/Laws.antt =====
-- How the RPCs of services/auth/handlers/handler.go fail.
use re_master.Prelude.{String, ◌≡◌, List, arith}
use mathlib.Core.Path.{subst}
use re_master.Errors.Types.{Error}
use re_master.Errors.Handlers.{handle_grpc_error}
use re_master.Errors.Handlers.EndToEnd.{handle_grpc_error-IsStatus, IsStatus}
use re_master.Exec.{Result, ok, err, Exec, pure, or_fail, replaced, continue, ◌>>=◌}
use re_master.Auth.Platform.{Platform}
use re_master.Auth.Jwt.{JwtUtils}
use re_master.Auth.Oauth.{Provider}
use re_master.Auth.Proto as Pb
use re_master.Auth.Handler.{
  CallContext, registration, login, oauth_login, refresh_token, validate_token, logout,
  change_password,
}

-- An action that fails with nothing but status errors.
abbrev pub FailsWithStatus : {W A : Type 0} → Exec W A → Type 0
FailsWithStatus {W} m = (w : W) (e : Error) → (m w).0 ≡ err e → IsStatus e

module _ {W A B : Type 0} where
  replaced-IsStatus :
      (r : Result A) (f : A → B) (w : W) (e : Error)
      → (continue (replaced handle_grpc_error r) (λ a. pure {W = W} (f a)) w).0 ≡ err e
      → IsStatus e
  unfolding ◌>>=◌
  replaced-IsStatus (ok a) f w e h = absurd (ground arith)
  replaced-IsStatus (err x) f w e h =
      let same : handle_grpc_error x ≡ e = ground arith in
      subst IsStatus same (handle_grpc_error-IsStatus x)

  wrapped-FailsWithStatus :
      (m : Exec W A) (f : A → B) → FailsWithStatus (or_fail m handle_grpc_error >>= λ a. pure (f a))
  unfolding ◌>>=◌
  wrapped-FailsWithStatus m f w e h = replaced-IsStatus (m w).0 f (m w).1 e h

module _ {W : Type 0} (p : Platform W) (j : JwtUtils) where
  -- Each of the seven RPCs that can fail does so with a gRPC status error whose code is not OK, whatever
  -- the request, the platform and the failure.
  pub rpcs-FailsWithStatus :
      (factory : List (String × Provider)) (ctx : CallContext)
      → ((req : Pb.RegisterRequest) → FailsWithStatus (registration p j ctx req))
        × ((req : Pb.LoginRequest) → FailsWithStatus (login p j ctx req))
        × ((req : Pb.OauthLoginRequest) → FailsWithStatus (oauth_login p j factory ctx req))
        × ((req : Pb.RefreshTokenRequest) → FailsWithStatus (refresh_token p j ctx req))
        × ((req : Pb.ValidateTokenRequest) → FailsWithStatus (validate_token p j req))
        × ((req : Pb.LogoutRequest) → FailsWithStatus (logout p req))
        × ((req : Pb.ChangePasswordRequest) → FailsWithStatus (change_password p req))
  unfolding registration login oauth_login refresh_token validate_token logout change_password
  rpcs-FailsWithStatus factory ctx = (
    λ req. wrapped-FailsWithStatus _ _,
    λ req. wrapped-FailsWithStatus _ _,
    λ req. wrapped-FailsWithStatus _ _,
    λ req. wrapped-FailsWithStatus _ _,
    λ req. wrapped-FailsWithStatus _ _,
    λ req. wrapped-FailsWithStatus _ _,
    λ req. wrapped-FailsWithStatus _ _,
  )
