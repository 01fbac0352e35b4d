-- ===== src/Gateway/Server/Laws.antt =====
-- The connections of the gateway (services/api-gateway/server/server.go): which there are after its
-- start, and that its shutdown closes them.
use re_master.Prelude.{
  ℕ, String, ◌≡◌, refl, ap, ◌↔◌, Bool, true, false, ◌||◌, Option, none, some, [], ◌∷◌, arith,
  nat_eq, if◌then◌else◌,
}
use re_master.Prelude.Maps.{Map, insert}
use mathlib.Core.Path.{sym, subst}
use re_master.Exec.{Result, ok, err, continue}
use re_master.Config.{Config, get_service_grpc_addr}
use re_master.Gateway.Routes.{State, ready, health_status}
use re_master.Gateway.Routes.Laws.{health_status_iff}
use re_master.Gateway.Server.{
  Server, new_server, Dialer, Service, auth_service, connect_to_service, connected, addressed,
  initialize_client, initialize_clients, initialize_grpc_clients, close_one, close_all, shutdown,
  states,
}

-- Whether a call of `grpc.NewClient` has given the connection.
abbrev pub gives : Result (Option ℕ) → ℕ → Bool
gives (ok (some a)) c = nat_eq c a
gives (ok none) c = false
gives (err e) c = false

-- What grpc promises of the connections: `is_open w c` tells whether `c` has been made and not closed.
pub record Tracks {W : Type 0} (d : Dialer W) (is_open : W → ℕ → Bool) : Type 0 where
  pub after_new :
      (address : String) (w : W) (c : ℕ)
      → is_open (d.new_client address w).1 c
        ≡ (if gives (d.new_client address w).0 c then true else is_open w c)
  pub after_close :
      (a : ℕ) (w : W) (c : ℕ)
      → is_open (d.close a w).1 c ≡ (if nat_eq c a then false else is_open w c)

abbrev is_conn : ℕ → Option ℕ → Bool
is_conn c none = false
is_conn c (some a) = nat_eq c a

abbrev stored : ℕ → Map (Option ℕ) → Bool
stored c [] = false
stored c ((name, conn) ∷ rest) = is_conn c conn || stored c rest

module _ {W : Type 0} {d : Dialer W} {is_open : W → ℕ → Bool} (laws : Tracks d is_open) where
  close_one-closes :
      (conn : Option ℕ) (w : W) (c : ℕ)
      → is_open (close_one d conn w) c ≡ (if is_conn c conn then false else is_open w c)
  close_one-closes none w c = refl
  close_one-closes (some a) w c = laws.after_close a w c

  -- Exactly the connections of the map are closed.
  close_all-closes :
      (conns : Map (Option ℕ)) (w : W) (c : ℕ)
      → is_open (close_all d conns w) c ≡ (if stored c conns then false else is_open w c)
  unfolding close_all
  close_all-closes [] w c = refl
  close_all-closes ((name, conn) ∷ rest) w c =
      ground (arith, close_all-closes rest (close_one d conn w) c, close_one-closes conn w c)

  -- Each open connection is in the map.
  abbrev Stored : Server × W → Type 0
  Stored (s, w) = (c : ℕ) → is_open w c ≡ true → stored c s.grpc_connections ≡ true

  -- The first connection is stored, whatever else the service does with it.
  connected-Stored :
      (service : Service) (s : Server) (r : Result (Option ℕ) × W)
      → ((conn : ℕ) (t : Server) → (service.init conn t).grpc_connections ≡ t.grpc_connections)
      → s.grpc_connections ≡ []
      → ((c : ℕ) → is_open r.1 c ≡ gives r.0 c)
      → Stored (connected d service r s).1
  unfolding insert
  connected-Stored service s (err e, w) keeps empty same = λ c h. ground (arith, same c)
  connected-Stored service s (ok none, w) keeps empty same = λ c h. ground (arith, same c)
  connected-Stored service s (ok (some conn), w) keeps empty same =
      λ c h. rw (keeps conn _, empty) (ground (arith, same c))

  addressed-Stored :
      (service : Service) (r : Result String) (s : Server) (w : W)
      → ((conn : ℕ) (t : Server) → (service.init conn t).grpc_connections ≡ t.grpc_connections)
      → s.grpc_connections ≡ []
      → ((c : ℕ) → is_open w c ≡ false)
      → Stored (addressed d service r (s, w)).1
  unfolding connect_to_service
  addressed-Stored service (err e) s w keeps empty closed = λ c h. absurd (ground (arith, closed c))
  addressed-Stored service (ok address) s w keeps empty closed =
      connected-Stored service s (d.new_client address w) keeps empty
        λ c. ground (arith, laws.after_new address w c, closed c)

  -- There is one service, so its round is the whole start.
  last_round :
      (r : Result (Unit {0})) (sw : Server × W)
      → (continue r (λ u. initialize_clients d []) sw).1 ≡ sw
  unfolding initialize_clients
  last_round (ok u) sw = refl
  last_round (err e) sw = refl

  initialize-Stored :
      (cfg : Config) (w : W)
      → ((c : ℕ) → is_open w c ≡ false)
      → Stored (initialize_grpc_clients d (new_server cfg, w)).1
  unfolding initialize_grpc_clients initialize_clients initialize_client
  initialize-Stored cfg w closed =
      let round = initialize_client d auth_service (new_server cfg, w) in
      rw (last_round round.0 round.1) (
        addressed-Stored auth_service (get_service_grpc_addr cfg "auth") (new_server cfg) w
          (λ conn t. refl) refl closed)

  -- With what grpc promises of its connections (`Tracks`): if none is open before, then after the gateway's
  -- start of its connections, which may have failed, and its shutdown none is open.
  pub shutdown-closes :
      (cfg : Config) (w : W)
      → ((c : ℕ) → is_open w c ≡ false)
      → let (s, w') = (initialize_grpc_clients d (new_server cfg, w)).1 in
        (c : ℕ) → is_open (shutdown d s w') c ≡ false
  unfolding shutdown
  shutdown-closes cfg w closed c =
      let (s, w') = (initialize_grpc_clients d (new_server cfg, w)).1 in
      ground (arith, close_all-closes s.grpc_connections w' c, initialize-Stored cfg w closed c)

-- The gateway with one connection, that of the authentication service.
abbrev pub connected_to : Config → ℕ → Server
connected_to cfg conn = record {
  config = cfg;
  grpc_connections = ("auth", some conn) ∷ [];
  auth_client = some conn;
}

module _ {W : Type 0} (d : Dialer W) where
  -- The rest of the start after a step of its only round.
  abbrev Starts : Result (Unit {0}) × (Server × W) → Server → W → Type 0
  Starts (r, sw) s w = continue r (λ u. initialize_clients d []) sw ≡ (ok tt, (s, w))

  connected-eq-ok :
      (cfg : Config) (s : Server) (w' : W) (r : Result (Option ℕ) × W)
      → Starts (connected d auth_service r (new_server cfg)) s w'
      → (conn : ℕ) × (r ≡ (ok (some conn), w')) × (s ≡ connected_to cfg conn)
  unfolding initialize_clients insert
  connected-eq-ok cfg s w' (ok none, v) h = cc
  connected-eq-ok cfg s w' (err e, v) h = cc
  connected-eq-ok cfg s w' (ok (some conn), v) h = (conn, cc, cc)

  addressed-eq-ok :
      (cfg : Config) (w : W) (s : Server) (w' : W) (r : Result String)
      → Starts (addressed d auth_service r (new_server cfg, w)) s w'
      → (address : String) × (conn : ℕ) × (r ≡ ok address)
        × (d.new_client address w ≡ (ok (some conn), w'))
        × (s ≡ connected_to cfg conn)
  unfolding connect_to_service
  addressed-eq-ok cfg w s w' (err e) h = cc
  addressed-eq-ok cfg w s w' (ok address) h =
      let (conn, dialled, same) = connected-eq-ok cfg s w' (d.new_client address w) h in
      (address, conn, refl, dialled, same)

  -- If the start of the connections succeeds, then the configuration has an address of the authentication
  -- service, and the connection that was made to it is the one in the map, the only one there, and
  -- the one that the client uses.
  initialized :
      (cfg : Config) (w : W) (s : Server) (w' : W)
      → initialize_grpc_clients d (new_server cfg, w) ≡ (ok tt, (s, w'))
      → (address : String) × (conn : ℕ) × (get_service_grpc_addr cfg "auth" ≡ ok address)
        × (d.new_client address w ≡ (ok (some conn), w'))
        × (s ≡ connected_to cfg conn)
  unfolding initialize_grpc_clients initialize_clients initialize_client
  initialized cfg w s w' h = addressed-eq-ok cfg w s w' (get_service_grpc_addr cfg "auth") h

  -- The report on one connection.
  abbrev Reports : Server → ℕ → Type 0
  Reports s conn =
      (state_string : State → String) (now : ℕ) (version : String) (later : W)
      → ((health_status state_string (states d s.grpc_connections later) now version).0 ≡ 200)
        ↔ (d.get_state conn later ≡ ready)

  connected_to-Reports : (cfg : Config) (conn : ℕ) → Reports (connected_to cfg conn) conn
  unfolding states
  connected_to-Reports cfg conn state_string now version later =
      let state = d.get_state conn later in
      let all = (health_status_iff state_string (("auth", some state) ∷ []) now version).0 in
      (λ e. let up : some state ≡ some ready = (all.0 e).0 in cc, λ e. all.1 (ap some e, tt))

  -- After a start of the connections that has succeeded, the health report is at any later time answered
  -- with 200 exactly if the connection that the authentication client uses is then ready.
  pub initialized_health :
      (cfg : Config) (w : W) (s : Server) (w' : W)
      → initialize_grpc_clients d (new_server cfg, w) ≡ (ok tt, (s, w'))
      → (conn : ℕ) × (s.auth_client ≡ some conn) × Reports s conn
  initialized_health cfg w s w' h =
      let (address, conn, found, dialled, same) = initialized cfg w s w' h in
      (
        conn,
        ap (λ (t : Server). t.auth_client) same,
        subst (λ (t : Server). Reports t conn) (sym same) (connected_to-Reports cfg conn),
      )
