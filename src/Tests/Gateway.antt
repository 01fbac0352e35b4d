-- ===== src/Tests/Gateway.antt =====
-- Instances of the theorems on services/api-gateway, and runs of its code, on the request in memory.
use re_master.Prelude.{
  String, ◌≡◌, ◌↔◌, ◌⊎◌, refl, true, false, Option, none, some, List, [], ◌∷◌, All, arith,
}
use re_master.Errors.Types.{to_error, new_rate_limit_error}
use re_master.Errors.Handlers.{handle_gin_error}
use re_master.Exec.{ok}
use re_master.Prelude.Maps.{lookup}
use re_master.Auth.Jwt.{generate_refresh_token}
use re_master.Gateway.Context.{failure, string_value}
use re_master.Gateway.Middleware.Auth.{require_auth, require_role}
use re_master.Gateway.Middleware.Access.{
  Refused, NoRole, Passed, require_auth_cases, require_role_never,
}
use re_master.Gateway.Middleware.Common.{Panic}
use re_master.Gateway.Routes.{State, ready, idle, chain, health_status}
use re_master.Gateway.Routes.Laws.{IsUp, health_status_iff}
use re_master.Gateway.Routes.Limit.{over_limit_refused}
use re_master.Gateway.Handlers.{login}
use re_master.Gateway.Answers.{Answered, lock_message, locked_login-Answered}
use re_master.Samples.{World, platform, config, start, zeros}
use re_master.Samples.Gateway.{
  Request, gin, client, caller, handlers, counter, handlers-Decodes, gin-Observes, client-KeepsRole,
}
use re_master.Prelude.Hex.{encode_to_string}

abbrev request : Request
request = record {
  authorization = "Bearer jwt:000000000000000000000001";
  email = "ada@example.org";
  password = "lovelace1";
  token = "0000000000000000000000000000000000000000000000000000000000000000";
  keys = [];
  errors = [];
  replies = [];
  headers = [];
  counter = 0;
  service = start;
}

abbrev state_text : State → String
state_text ready = "READY"
state_text _ = "OTHER"

abbrev one_idle : List (String × Option State)
one_idle = ("auth", some ready) ∷ ("user", some idle) ∷ []

health_status_iff_example :
    let (status, report) = health_status state_text one_idle 0 "1.0" in
    ((status ≡ 200) ↔ All IsUp one_idle)
    × ((status ≡ 503) ↔ (report.healthy ≡ false))
    × ((report.healthy ≡ true) ↔ All IsUp one_idle)
health_status_iff_example = health_status_iff state_text one_idle 0 "1.0"

abbrev hundredth : Request
hundredth = record request { counter = 100; keys = ("correlation_id", string_value "1") ∷ [] }

abbrev unreached : Request → Request × Option Panic
unreached c = (c, some (record { text = "reached"; syscall_error = none }))

over_limit_refused_example :
    ((chain gin counter unreached hundredth).replies
      ≡ failure (handle_gin_error (to_error (new_rate_limit_error "Too many requests"))) ∷ [])
    × ((handle_gin_error (to_error (new_rate_limit_error "Too many requests"))).status ≡ 429)
unfolding lookup
over_limit_refused_example =
    over_limit_refused gin-Observes counter unreached hundredth 101 refl (omega arith) refl

require_auth_cases_example :
    Refused gin client request (require_auth gin client (λ c. c) request)
    ⊎ Passed gin client (λ c. c) request (require_auth gin client (λ c. c) request)
require_auth_cases_example = require_auth_cases gin client (λ c. c) request

require_role_never_example :
    let reply = require_auth gin client (require_role gin ("client" ∷ []) (λ c. c)) request in
    Refused gin client request reply ⊎ NoRole gin client request reply
unfolding lookup
require_role_never_example =
    require_role_never gin client client-KeepsRole ("client" ∷ []) (λ c. c) request refl

abbrev locked : World
locked = record start { counter = 7 }

locked_login-Answered_example :
    Answered handlers 429
      (lock_message platform config "ada@example.org" locked)
      (client.login
        (record { email = "ada@example.org"; password = "lovelace1" })
        (record request { service = locked })).1
      (login handlers (record request { service = locked }))
locked_login-Answered_example =
    locked_login-Answered handlers handlers-Decodes platform config caller
      (record { email = "ada@example.org"; password = "lovelace1" })
      (record { email = "ada@example.org"; password = "lovelace1" })
      (record request { service = locked }) (record request { service = locked }) locked 7 refl refl
      refl refl (omega arith)

token_issued : (generate_refresh_token platform config start).0 ≡ ok request.token
unfolding generate_refresh_token encode_to_string zeros
token_issued = refl
