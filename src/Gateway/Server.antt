-- ===== src/Gateway/Server.antt =====
-- services/api-gateway/server/server.go: the gateway's connections to the services, from its start to its
-- shutdown. A connection is a number, by which grpc knows it; what is logged is not modelled.
pub mod Laws
pub mod Lifecycle
use re_master.Prelude.{ℕ, String, Option, none, some, List, [], ◌∷◌}
use re_master.Prelude.Maps.{Map, insert}
use re_master.Prelude.Text.{◌<>◌}
use re_master.Errors.Types.{Error, plain, wrapped}
use re_master.Exec.{Exec, Result, ok, err, continue, or_fail, ◌>>=◌, ◌>>◌}
use re_master.Config.{Config, get_service_grpc_addr}
use re_master.Gateway.Routes.{State, health_status}
use re_master.Gateway.Context.{HealthStatus}

-- The fields of `Server` that change: the map of connections, in which nil is none, and the client.
pub record Server : Type 0 where
  pub config : Config
  pub grpc_connections : Map (Option ℕ)
  pub auth_client : Option ℕ

abbrev pub new_server : Config → Server
new_server cfg = record { config = cfg; grpc_connections = []; auth_client = none }

-- What grpc does: `grpc.NewClient`, which may give a nil connection, `Close` and `GetState`.
pub record Dialer (W : Type 0) : Type 0 where
  pub new_client : String → Exec W (Option ℕ)
  pub close : ℕ → Exec W (Unit {0})
  pub get_state : ℕ → W → State

-- A service of the list in `initializeGRPCClients`.
pub record Service : Type 0 where
  pub name : String
  pub init : ℕ → Server → Server

abbrev pub auth_service : Service
auth_service = record { name = "auth"; init = λ conn s. record s { auth_client = some conn } }

abbrev services : List Service
services = auth_service ∷ []

module _ {W : Type 0} (d : Dialer W) where
  unfoldable pub connect_to_service : String → Exec W (Option ℕ)
  connect_to_service address = d.new_client address

  -- What follows the connection of a service.
  abbrev connected : Service → Result (Option ℕ) × W → Server → Result (Unit {0}) × (Server × W)
  connected service (err e, w) s =
      (err (wrapped ("service " <> service.name <> " not available") e), (s, w))
  connected service (ok none, w) s =
      (err (plain ("service " <> service.name <> " connection is nil")), (s, w))
  connected service (ok (some conn), w) s =
      let stored : Server = record s {
        grpc_connections = insert service.name (some conn) s.grpc_connections;
      } in
      (ok tt, (service.init conn stored, w))

  abbrev addressed : Service → Result String → Server × W → Result (Unit {0}) × (Server × W)
  addressed service (err e) (s, w) =
      (err (wrapped ("failed to get " <> service.name <> " service address") e), (s, w))
  addressed service (ok address) (s, w) = connected service (connect_to_service address w) s

  -- One round of the loop.
  unfoldable pub initialize_client : Service → Exec (Server × W) (Unit {0})
  unfolding connect_to_service insert get_service_grpc_addr
  initialize_client service (s, w) =
      addressed service (get_service_grpc_addr s.config service.name) (s, w)

  unfoldable pub initialize_clients : List Service → Exec (Server × W) (Unit {0})
  unfolding initialize_client
  initialize_clients [] sw = (ok tt, sw)
  initialize_clients (service ∷ rest) sw =
      continue (initialize_client service sw).0 (λ u. initialize_clients rest)
        (initialize_client service sw).1

  unfoldable pub initialize_grpc_clients : Exec (Server × W) (Unit {0})
  unfolding initialize_clients
  initialize_grpc_clients sw = initialize_clients services sw

  -- `shutdown`, after its wait: an error of `Close` is only logged. The order in which Go ranges over the
  -- map is that of the list.
  abbrev close_one : Option ℕ → W → W
  close_one none w = w
  close_one (some conn) w = (d.close conn w).1

  unfoldable pub close_all : Map (Option ℕ) → W → W
  close_all [] w = w
  close_all ((name, conn) ∷ rest) w = close_all rest (close_one conn w)

  unfoldable pub shutdown : Server → W → W
  unfolding close_all
  shutdown s w = close_all s.grpc_connections w

  -- The states that `handleHealth` asks for.
  abbrev state_of : W → Option ℕ → Option State
  state_of w none = none
  state_of w (some conn) = some (d.get_state conn w)

  unfoldable pub states : Map (Option ℕ) → W → List (String × Option State)
  states [] w = []
  states ((name, conn) ∷ rest) w = (name, state_of w conn) ∷ states rest w

  -- `Start`: what it runs once the clients are there, setting up the routes first, is `serve`.
  unfoldable pub start : Exec (Server × W) (Unit {0}) → Exec (Server × W) (Unit {0})
  unfolding ◌>>=◌ initialize_grpc_clients
  start serve = do or_fail initialize_grpc_clients (wrapped "initialization failed"); serve
