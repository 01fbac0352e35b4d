-- ===== src/Tests/Gates.antt =====
-- The start and the end of the gateway and of the authentication service, on servers in memory.
use re_master.Prelude.{ℕ, String, ◌≡◌, ◌↔◌, refl, true, false, some, nat_eq, ◌+◌, if◌then◌else◌}
use re_master.Exec.{ok, Result}
use re_master.Config.{Config}
use re_master.Gateway.Routes.{State, ready, health_status, idle}
use re_master.Gateway.Server.{new_server, Dialer, initialize_grpc_clients, shutdown, states}
use re_master.Gateway.Server.Laws.{Tracks, shutdown-closes, initialized_health, connected_to}
use re_master.Gateway.Server.Lifecycle.{Run, Reach, listening, start_result}
use re_master.Gateway.Server.Lifecycle.Laws.{signal_races}
use re_master.Server.Factory as Factory
use re_master.Server.Factory.{Process}
use re_master.Server.Lifecycle.{Served, clean}
use re_master.Auth.Main.{main, ended, auth_server}
use re_master.Auth.Main.Laws.{LeavesAs, main-EndsClosed}
use re_master.Samples.Servers.{
  Servers, Cluster, drivers, redis_open, drivers-Promises, fresh, service_config, healthy,
}

-- Connections over a network that always gives one.
abbrev dialer : Dialer Servers
dialer = record {
  new_client = λ address w. (
    ok (some w.next),
    record w { opened = λ c. if nat_eq c w.next then true else w.opened c; next = w.next + 1 },
  );
  close = λ a w. (ok tt, record w { opened = λ c. if nat_eq c a then false else w.opened c });
  get_state = λ c w. if w.opened c then ready else idle;
}

dialer-Tracks : Tracks dialer (λ w c. w.opened c)
dialer-Tracks = record { after_new = λ address w c. refl; after_close = λ a w c. refl }

shutdown-closes_example :
    let (s, w') = (initialize_grpc_clients dialer (new_server service_config, healthy)).1 in
    (shutdown dialer s w').opened 1 ≡ false
shutdown-closes_example = shutdown-closes dialer-Tracks service_config healthy (λ c. refl) 1

abbrev connected : Servers
connected = record { opened = λ c. if nat_eq c 1 then true else false; next = 2; answers = true }

gateway_starts :
    initialize_grpc_clients dialer (new_server service_config, healthy)
    ≡ (ok tt, (connected_to service_config 1, connected))
unfolding initialize_grpc_clients
gateway_starts = refl

initialized_health_example :
    (conn : ℕ) × ((connected_to service_config 1).auth_client ≡ some conn)
    × ((state_string : State → String) (now : ℕ) (version : String) (later : Servers)
        → ((health_status state_string
              (states dialer (connected_to service_config 1).grpc_connections later)
              now
              version).0
            ≡ 200)
          ↔ (dialer.get_state conn later ≡ ready))
initialized_health_example =
    initialized_health dialer service_config healthy (connected_to service_config 1) connected
      gateway_starts

-- One request is in flight.
signal_races_example :
    ((t : Run) × Reach t
      × (start_result t.http ≡ some (ok tt))
      × (t.in_flight ≡ 1)
      × (t.connections_closed ≡ false))
    × ((u : Run) × Reach u
        × (u.http ≡ listening)
        × (u.in_flight ≡ 1)
        × (u.connections_closed ≡ true))
signal_races_example = signal_races 1

-- The service's `main`, with a server that serves until it is stopped.
abbrev loading : Process Cluster → Result Config × Process Cluster
loading p = (ok service_config, p)

abbrev serving : Factory.Server → Process Cluster → Served × Process Cluster
serving s p = (clean, p)

main_ends : (main drivers loading serving fresh).0 ≡ ended
unfolding main
main_ends = refl

main-EndsClosed_example :
    (cfg : Config) × ((loading fresh).0 ≡ ok cfg)
    × ((s : Factory.Server) × ((Factory.new_server drivers (auth_server drivers cfg) fresh).0
          ≡ ok s)
        × (let (v, p) = serving s (Factory.new_server drivers (auth_server drivers cfg) fresh).1 in
            LeavesAs redis_open p v (main drivers loading serving fresh).1))
main-EndsClosed_example =
    main-EndsClosed drivers-Promises serving loading fresh (λ s p owned. owned) (λ c. refl)
      main_ends
