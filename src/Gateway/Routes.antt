-- ===== src/Gateway/Routes.antt =====
-- services/api-gateway/server/routes.go: the chain of middleware, and the report on the connections
-- to the services.
pub mod Laws
pub mod Limit
pub mod Table
use re_master.Prelude.{
  ℕ, String, Bool, true, false, ◌&&◌, Option, none, some, List, [], ◌∷◌, if◌then◌else◌,
}
use re_master.Prelude.Maps.{Map, insert}
use re_master.Redis.{Redis}
use re_master.Gateway.Context.{Gin, ServiceHealth, HealthStatus, health_report}
use re_master.Gateway.Middleware.Common.{
  Panic, request_logger, rate_limiter, cors, gin_error_middleware, recovery,
}

-- `connectivity.State`; `other_state` stands for a value that is none of the constants.
pub data State : Type 0 where
  idle connecting ready transient_failure shutdown other_state : State

unfoldable pub get_state_message : State → String
get_state_message idle = "Connection is idle"
get_state_message connecting = "Connecting to service"
get_state_message ready = "Service is ready"
get_state_message transient_failure = "Temporary connection failure"
get_state_message shutdown = "Connection is shut down"
get_state_message other_state = "Unknown state"

abbrev pub is_ready : State → Bool
is_ready ready = true
is_ready _ = false

unfoldable pub get_overall_status : Bool → String
get_overall_status healthy = if healthy then "healthy" else "unhealthy"

-- What the loop of `handleHealth` keeps.
pub record Health : Type 0 where
  pub healthy : Bool
  pub services : Map String
  pub details : Map ServiceHealth

module _ (state_string : State → String) where
  -- One round of the loop, on the state of the service's connection, none if that is nil.
  unfoldable pub add_service : String → Option State → Health → Health
  unfolding get_state_message insert
  add_service name none h = record {
    healthy = false;
    services = insert name "NOT_CONNECTED" h.services;
    details =
        insert name
          (record {
            status = "NOT_CONNECTED";
            healthy = false;
            message = "Connection not established";
          })
          h.details;
  }
  add_service name (some state) h = record {
    healthy = if is_ready state then h.healthy else false;
    services = insert name (state_string state) h.services;
    details =
        insert name
          (record {
            status = state_string state;
            healthy = is_ready state;
            message = get_state_message state;
          })
          h.details;
  }

  unfoldable pub add_services : List (String × Option State) → Health → Health
  unfolding add_service
  add_services [] h = h
  add_services ((name, state) ∷ connections) h = add_services connections (add_service name state h)

  -- The report and its status.
  unfoldable pub health_status : List (String × Option State) → ℕ → String → ℕ × HealthStatus
  unfolding add_services get_overall_status
  health_status connections now version =
      let h = add_services connections (record { healthy = true; services = []; details = [] }) in
      (
        if h.healthy then 200 else 503,
        record {
          status = get_overall_status h.healthy;
          healthy = h.healthy;
          services = h.services;
          details = h.details;
          timestamp = now;
          version = version;
        },
      )

module _ {C : Type 0} (g : Gin C) where
  -- The order in which Go ranges over the map of connections is that of the list.
  unfoldable pub handle_health :
      (State → String) → (C → ℕ × C) → List (String × Option State) → String → C → C
  unfolding health_status
  handle_health state_string now connections version c =
      let (t, c') = now c in
      let (status, report) = health_status state_string connections t version in
      g.json (health_report status report) c'

  -- The middleware of `setupRoutes` around a handler: 100 requests in a minute.
  unfoldable pub chain : Redis C → (C → C × Option Panic) → C → C
  unfolding request_logger rate_limiter cors gin_error_middleware recovery
  chain r handler =
      request_logger g
        (rate_limiter g r 100 60000000000 (cors g (gin_error_middleware g (recovery g handler))))
