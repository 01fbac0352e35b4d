-- ===== src/Gateway/Answers.antt =====
-- A failure in the authentication service (services/auth) as the gateway's client sees it
-- (services/api-gateway/handlers/auth.go).
use re_master.Prelude.{ℕ, ◌≤◌, String, ◌≡◌, refl, sym, ◌∙◌, some, [], ◌∷◌}
use re_master.Prelude.Text.{◌<>◌}
use re_master.Errors.Types.{
  Error, AppError, plain, to_error, new_too_many_requests_error, new_validation_error,
}
use re_master.Errors.Chain.{as_app_error, message}
use re_master.Errors.Mapping.RoundTrip.{IsMade, too_many_requests, validation}
use re_master.Errors.Handlers.{HttpResponse, handle_grpc_error, handle_grpc_to_http}
use re_master.Errors.Handlers.EndToEnd.{Decodes, end_to_end}
use re_master.Exec.{ok, err, Exec}
use re_master.Auth.Platform.{Platform}
use re_master.Auth.Jwt.{JwtUtils, generate_refresh_token}
use re_master.Auth.Cache.RateLimiter.{attempts_key, max_login_attempts}
use re_master.Auth.Proto as Pb
use re_master.Auth.Handler as Rpc
use re_master.Auth.Handler.{CallContext, extract_request_metadata}
use re_master.Auth.Service.Login.Lockout.{authenticate_user_locked}
use re_master.Auth.Service.Logout.Laws.{Fills, RejectsLength, logout_issued_token}
use re_master.Gateway.Models.{Payload, LoginDto, RefreshDto}
use re_master.Gateway.Context.{failure}
use re_master.Gateway.Handlers.{Handlers, call, login, logout}

module _ {C : Type 0} (h : Handlers C) where
  -- A failure reply with a status and a message, after which the context is `c`.
  pub record Answered (status : ℕ) (text : String) (c result : C) : Type 0 where
    pub response : HttpResponse
    pub sent : result ≡ h.gin.json (failure response) c
    pub has_status : response.status ≡ status
    pub has_message : response.body.error ≡ text

module _ {C : Type 0} (h : Handlers C) (decodes : Decodes h.from_error) where
  -- If `status.FromError` takes apart what `status.Error` builds, and the client's call fails with the status error that the service made of an application error of
  -- one of the factories, then the gateway answers with the status and the message of that error.
  pub call-Answered :
      {A : Type 0} (rpc : Exec C A) (reply : A → String × Payload) (c : C) (x : Error)
      {e : AppError}
      → (rpc c).0 ≡ err (handle_grpc_error x)
      → as_app_error x ≡ some e
      → IsMade e
      → Answered h e.status_code e.message (rpc c).1 (call h rpc reply c)
  unfolding call
  call-Answered rpc reply c x failed held made =
      let facts = end_to_end h.from_error h.code_string decodes x held made in
      record {
        response = handle_grpc_to_http h.from_error h.code_string (handle_grpc_error x);
        sent = rw failed refl;
        has_status = facts.0;
        has_message = facts.2;
      }

as_app_error-to_error : (e : AppError) → as_app_error (to_error e) ≡ some e
unfolding as_app_error
as_app_error-to_error e = refl

module _ {W : Type 0} (p : Platform W) (j : JwtUtils) where
  -- The message of a login that is refused at the limit, with the time that is left.
  abbrev pub lock_message : String → W → String
  lock_message email w =
      let left = (p.redis.ttl (attempts_key email) (p.redis.get_int (attempts_key email) w).1).0 in
      message p.library_text
        (plain ("too many login attempts, try again in " <> p.redis.duration_text left))

  locked_rpc :
      (ctx : CallContext) (req : Pb.LoginRequest) (w : W) (n : ℕ)
      → (p.redis.get_int (attempts_key req.email) w).0 ≡ ok n
      → max_login_attempts ≤ n
      → (Rpc.login p j ctx req w).0
        ≡ err
            (handle_grpc_error (to_error (new_too_many_requests_error (lock_message req.email w))))
  unfolding Rpc.login
  locked_rpc ctx req w n counted full =
      rw
        (authenticate_user_locked p j (record { email = req.email; password = req.password })
          (extract_request_metadata ctx) w n counted full)
        refl

module _ {W : Type 0} (p : Platform W) (j : JwtUtils) (fills : Fills p)
    (rejects : RejectsLength p) where
  issued_rpc :
      (w₀ : W) (req : Pb.LogoutRequest)
      → (generate_refresh_token p j w₀).0 ≡ ok req.refresh_token
      → (w : W)
      → (Rpc.logout p req w).0
        ≡ err (
            handle_grpc_error (
              to_error (
                new_validation_error "invalid refresh token id"
                  (("refresh_token", req.refresh_token) ∷ []))))
  unfolding Rpc.logout
  issued_rpc w₀ req issued w =
      rw
        (logout_issued_token p j fills rejects w₀
          (record { user_id = ""; access_token = ""; refresh_token = req.refresh_token }) issued w)
        refl

module _ {C W : Type 0} (h : Handlers C) (decodes : Decodes h.from_error) (p : Platform W)
    (j : JwtUtils) where
  -- A login over HTTP for an address whose counter shows five failed logins or more is answered with
  -- 429 and the time left, whatever the password, if the client's call has the result that the
  -- service's RPC has in a world with that counter, and `status.FromError` takes apart what
  -- `status.Error` builds.
  pub locked_login-Answered :
      (ctx : CallContext) (dto : LoginDto) (req : Pb.LoginRequest) (c c₁ : C) (w : W) (n : ℕ)
      → h.binding.bind_login c ≡ (ok dto, c₁)
      → req ≡ record { email = dto.email; password = dto.password }
      → (h.client.login req c₁).0 ≡ (Rpc.login p j ctx req w).0
      → (p.redis.get_int (attempts_key req.email) w).0 ≡ ok n
      → max_login_attempts ≤ n
      → Answered h 429 (lock_message p j req.email w) (h.client.login req c₁).1 (login h c)
  unfolding login new_too_many_requests_error
  locked_login-Answered ctx dto req c c₁ w n bound same served counted full =
      let e = new_too_many_requests_error (lock_message p j req.email w) in
      rw (bound, sym same)
        (call-Answered h decodes (h.client.login req) _ c₁ (to_error e)
          (served ∙ locked_rpc p j ctx req w n counted full) (as_app_error-to_error e)
          (too_many_requests _))

  -- A logout over HTTP with a refresh token that the service issued is answered with 400, if the
  -- client's call has the result that the service's RPC has in some world, `rand.Read` fills its
  -- slice, `ObjectIDFromHex` fails on texts that have not 24 characters, and `status.FromError` takes
  -- apart what `status.Error` builds.
  issued_logout-Answered :
      Fills p
      → RejectsLength p
      → (w₀ : W) (dto : RefreshDto) (req : Pb.LogoutRequest) (c c₁ : C) (w : W)
      → h.binding.bind_refresh c ≡ (ok dto, c₁)
      → req ≡ record { refresh_token = dto.refresh_token; user_id = "" }
      → (generate_refresh_token p j w₀).0 ≡ ok req.refresh_token
      → (h.client.logout req c₁).0 ≡ (Rpc.logout p req w).0
      → Answered h 400 "invalid refresh token id" (h.client.logout req c₁).1 (logout h c)
  unfolding logout new_validation_error
  issued_logout-Answered fills rejects w₀ dto req c c₁ w bound same issued served =
      let e =
        new_validation_error "invalid refresh token id"
          (("refresh_token", req.refresh_token) ∷ []) in
      rw (bound, sym same)
        (call-Answered h decodes (h.client.logout req) _ c₁ (to_error e)
          (served ∙ issued_rpc p j fills rejects w₀ req issued w) (as_app_error-to_error e)
          (validation _ _))
