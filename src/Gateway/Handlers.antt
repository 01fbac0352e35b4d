-- ===== src/Gateway/Handlers.antt =====
-- services/api-gateway/handlers/auth.go and utils/helpers.go. Deadlines and log records are not
-- modelled.
use re_master.Prelude.{ℕ, String, false, Option, none, some, [], ◌∷◌, ◌/◌}
use re_master.Prelude.Int.{pos}
use re_master.Errors.Types.{Error, Code, to_error, new_validation_error}
use re_master.Errors.Chain.{message}
use re_master.Errors.Handlers.{Status, handle_grpc_to_http}
use re_master.Exec.{Result, ok, err, Exec}
use re_master.Auth.Proto as Pb
use re_master.Gateway.Models.{Payload, auth_data, refresh_data, validate_data, health_data, no_data}
use re_master.Gateway.Middleware.Common.{Panic}
use re_master.Gateway.Context.{Gin, Binding, AuthClient, failure, success}

-- What the handlers are built on: `from_error` is `status.FromError`, `code_string` the method
-- `String` of a code, `library_text` that of the libraries' errors.
pub record Handlers (C : Type 0) : Type 0 where
  pub gin : Gin C
  pub binding : Binding C
  pub client : AuthClient C
  pub from_error : Error → Option Status
  pub code_string : Code → String
  pub library_text : Error → String

module _ {C : Type 0} (h : Handlers C) where
  -- `BindAndValidate`, with what follows for the data that it decodes.
  abbrev bound : {A : Type 0} → (A → C → C) → Result A × C → C
  bound follow (ok dto, c) = follow dto c
  bound follow (err e, c) =
      h.gin.add_error
        (to_error (
          new_validation_error "Request data is invalid"
            (("field", "request_body") ∷ ("issue", message h.library_text e) ∷ [])))
        c

  unfoldable pub bind_and_validate : {A : Type 0} → Exec C A → (A → C → C) → C → C
  unfolding new_validation_error
  bind_and_validate bind follow c = bound follow (bind c)

  -- The answer to the result of a call of the authentication service.
  abbrev answered : {A : Type 0} → (A → String × Payload) → Result A × C → C
  answered reply (ok resp, c) = h.gin.json (success (reply resp).0 (reply resp).1) c
  answered reply (err e, c) =
      h.gin.json (failure (handle_grpc_to_http h.from_error h.code_string e)) c

  unfoldable pub call : {A : Type 0} → Exec C A → (A → String × Payload) → C → C
  unfolding handle_grpc_to_http
  call rpc reply c = answered reply (rpc c)

  unfoldable pub register : C → C
  unfolding bind_and_validate call
  register = bind_and_validate h.binding.bind_register λ dto.
      call
        (h.client.registration (record {
          email = dto.email;
          password = dto.password;
          first_name = dto.first_name;
          last_name = dto.last_name;
          phone = dto.phone;
          user_type = dto.user_type;
        }))
        λ resp. (
          resp.message,
          auth_data (record {
            user_id = resp.user_id;
            access_token = resp.access_token;
            refresh_token = resp.refresh_token;
            expires_at = resp.expires_at;
            user_type = resp.user_type;
          }),
        )

  unfoldable pub login : C → C
  unfolding bind_and_validate call
  login = bind_and_validate h.binding.bind_login λ dto.
      call (h.client.login (record { email = dto.email; password = dto.password })) λ resp. (
        resp.message,
        auth_data (record {
          user_id = resp.user_id;
          access_token = resp.access_token;
          refresh_token = resp.refresh_token;
          expires_at = resp.expires_at;
          user_type = resp.user_type;
        }),
      )

  unfoldable pub oauth_login : C → C
  unfolding bind_and_validate call
  oauth_login = bind_and_validate h.binding.bind_oauth λ dto.
      call (h.client.oauth_login (record { provider = dto.provider; id_token = dto.id_token }))
        λ resp. (
          resp.message,
          auth_data (record {
            user_id = resp.user_id;
            access_token = resp.access_token;
            refresh_token = resp.refresh_token;
            expires_at = resp.expires_at;
            user_type = resp.user_type;
          }),
        )

  -- The fields of the answer that the source leaves out are empty.
  unfoldable pub refresh_token : C → C
  unfolding bind_and_validate call
  refresh_token = bind_and_validate h.binding.bind_refresh λ dto.
      call (h.client.refresh_token (record { refresh_token = dto.refresh_token })) λ resp. (
        resp.message,
        refresh_data (record {
          success = false;
          message = "";
          access_token = resp.access_token;
          refresh_token = resp.refresh_token;
          expires_at = resp.expires_at;
        }),
      )

  unfoldable pub validate_token : C → C
  unfolding bind_and_validate call
  validate_token = bind_and_validate h.binding.bind_validate λ dto.
      call (h.client.validate_token (record { access_token = dto.access_token })) λ resp. (
        resp.message,
        validate_data (record {
          valid = resp.valid;
          user_id = resp.user_id;
          user_type = resp.user_type;
          expires_at = resp.expires_at;
        }),
      )

  unfoldable pub logout : C → C
  unfolding bind_and_validate call
  logout = bind_and_validate h.binding.bind_refresh λ dto.
      call (h.client.logout (record { refresh_token = dto.refresh_token; user_id = "" }))
        λ resp. (resp.message, no_data)

  unfoldable pub change_password : C → C
  unfolding bind_and_validate call
  change_password = bind_and_validate h.binding.bind_password λ dto.
      call
        (h.client.change_password (record {
          user_id = dto.user_id;
          old_password = dto.old_password;
          new_password = dto.new_password;
        }))
        λ resp. (resp.message, no_data)

  -- `resp.Timestamp.Seconds` panics on a nil timestamp.
  abbrev health_reply : Pb.HealthResponse → Option ℕ → C → C × Option Panic
  health_reply resp none c = (
    c,
    some (record {
      text = "runtime error: invalid memory address or nil pointer dereference";
      syscall_error = none;
    }),
  )
  health_reply resp (some t) c = (
    h.gin.json
        (success "Service healthy" (
          health_data (record {
            status = resp.status;
            timestamp = pos (t / 1000000000);
            checks = resp.checks;
          })))
        c,
    none,
  )

  abbrev health_answered : Result Pb.HealthResponse × C → C × Option Panic
  health_answered (err e, c) =
      (h.gin.json (failure (handle_grpc_to_http h.from_error h.code_string e)) c, none)
  health_answered (ok resp, c) = health_reply resp resp.timestamp c

  unfoldable pub health : C → C × Option Panic
  unfolding handle_grpc_to_http
  health c = health_answered (h.client.health c)
