-- ===== src/Server/Factory.antt =====
-- shared/server/server_factory.go: how a service's server is made from its options, and what is
-- closed when it ends. The managers of connections are singletons of the process (`NewMongoManager`,
-- `NewRedisManager`): a server holds whether its pointer is nil, and the process holds what it points to.
pub mod Laws
pub mod Ends
use re_master.Prelude.{String, Bool, true, false, Option, none, some, List, [], ◌∷◌, if◌then◌else◌}
use re_master.Errors.Types.{Error, wrapped}
use re_master.Exec.{Exec, Result, ok, err, continue, replaced, or_fail, lift, ◌>>=◌, ◌>>◌}
use re_master.Connection.MongoManager as Mongo
use re_master.Connection.MongoManager.{MongoManager, MongoConfig, new_mongo_manager}
use re_master.Connection.RedisManager as Redis
use re_master.Connection.RedisManager.{RedisManager, RedisConfig, new_redis_manager}
use re_master.Config.{Config, get_service_grpc_addr}
use re_master.Server.Interceptors.{InterceptorConfig}
use re_master.Server.Grpc.{Network, GrpcServerConfig, GrpcServerManager, new_grpc_server}

pub record Server : Type 0 where
  pub name : String
  pub config : Config
  pub grpc_manager : Option GrpcServerManager
  pub has_mongo : Bool
  pub has_redis : Bool

-- The singletons, none before the first call of their constructor, and the rest of the world.
pub record Process (W : Type 0) : Type 0 where
  pub mongo : Option MongoManager
  pub redis : Option RedisManager
  pub world : W

-- `sync.Once`: the configuration of a later call is not looked at.
abbrev pub mongo_instance : MongoConfig → Option MongoManager → MongoManager
mongo_instance cfg none = new_mongo_manager cfg
mongo_instance cfg (some m) = m

abbrev pub redis_instance : RedisConfig → Option RedisManager → RedisManager
redis_instance cfg none = new_redis_manager cfg
redis_instance cfg (some m) = m

pub record Drivers (W : Type 0) : Type 0 where
  pub mongo : Mongo.Driver W
  pub redis : Redis.Driver W
  pub network : Network W

-- A step of the construction: the server so far and the process.
abbrev pub Build : Type 0 → Type 0 → Type 0
Build W A = Exec (Server × Process W) A

abbrev pub ServerOption : Type 0 → Type 0
ServerOption W = Build W (Unit {0})

pub record ServerConfig (W : Type 0) : Type 0 where
  pub name : String
  pub config : Config
  pub enable_health_check : Bool
  pub enable_reflection : Bool
  pub interceptor_config : InterceptorConfig
  pub dependencies : List (ServerOption W)

module _ {W : Type 0} where
  abbrev mongo_connected :
      Server
      → Process W
      → Result (Unit {0}) × (MongoManager × W)
      → Result (Unit {0}) × (Server × Process W)
  mongo_connected s p (ok u, (m, w)) =
      (ok tt, (record s { has_mongo = true }, record p { mongo = some m; world = w }))
  mongo_connected s p (err e, (m, w)) =
      (err (wrapped "mongodb connection failed" e), (s, record p { mongo = some m; world = w }))

  abbrev redis_connected :
      Server
      → Process W
      → Result (Unit {0}) × (RedisManager × W)
      → Result (Unit {0}) × (Server × Process W)
  redis_connected s p (ok u, (m, w)) =
      (ok tt, (record s { has_redis = true }, record p { redis = some m; world = w }))
  redis_connected s p (err e, (m, w)) =
      (err (wrapped "redis connection failed" e), (s, record p { redis = some m; world = w }))

  -- The loop over the dependencies, which ends at the first error.
  unfoldable pub apply_options : List (ServerOption W) → ServerOption W
  apply_options [] s = (ok tt, s)
  apply_options (opt ∷ opts) s =
      continue (replaced (wrapped "failed to apply option") (opt s).0) (λ u. apply_options opts)
        (opt s).1

  -- An action of the network, on the process's world.
  abbrev networked : {A : Type 0} → Exec W A → Build W A
  networked m (s, p) = ((m p.world).0, (s, record p { world = (m p.world).1 }))

  abbrev grpc_config : ServerConfig W → String → GrpcServerConfig
  grpc_config cfg address = record {
    address = address;
    config = cfg.config.grpc;
    enable_health_check = cfg.enable_health_check;
    enable_reflection = cfg.enable_reflection;
    interceptor_config = cfg.interceptor_config;
  }

  abbrev blank : ServerConfig W → Server
  blank cfg = record {
    name = cfg.name;
    config = cfg.config;
    grpc_manager = none;
    has_mongo = false;
    has_redis = false;
  }

  abbrev with_manager : GrpcServerManager → Build W Server
  with_manager manager (s, p) =
      let s' : Server = record s { grpc_manager = some manager } in (ok s', (s', p))

module _ {W : Type 0} (d : Drivers W) where
  unfoldable pub with_mongo : ServerOption W
  unfolding Mongo.connect
  with_mongo (s, p) =
      mongo_connected s p (Mongo.connect d.mongo (mongo_instance s.config.mongo p.mongo, p.world))

  unfoldable pub with_redis : ServerOption W
  unfolding Redis.connect
  with_redis (s, p) =
      redis_connected s p (Redis.connect d.redis (redis_instance s.config.redis p.redis, p.world))

  unfoldable pub listening : ServerConfig W → String → Build W GrpcServerManager
  unfolding ◌>>=◌ new_grpc_server
  listening cfg address =
      or_fail (networked (new_grpc_server d.network (grpc_config cfg address)))
        (wrapped "failed to create gRPC server")

  unfoldable pub service_address : ServerConfig W → Build W String
  unfolding ◌>>=◌ get_service_grpc_addr
  service_address cfg =
      or_fail (lift (get_service_grpc_addr cfg.config cfg.name))
        (wrapped "failed to get gRPC address")

  -- What follows the options, and in it, what follows the address.
  unfoldable pub build_at : ServerConfig W → String → Build W Server
  unfolding ◌>>=◌ listening
  build_at cfg address = do manager ← listening cfg address; with_manager manager

  unfoldable pub build_found : ServerConfig W → Build W Server
  unfolding ◌>>=◌ build_at service_address
  build_found cfg = do address ← service_address cfg; build_at cfg address

  -- The construction from a server without dependencies.
  unfoldable pub build : ServerConfig W → Build W Server
  unfolding ◌>>=◌ apply_options build_found
  build cfg = do apply_options cfg.dependencies; build_found cfg

  -- On an error the server is dropped, and what its options have connected is not.
  unfoldable pub new_server : ServerConfig W → Exec (Process W) Server
  unfolding build
  new_server cfg p = let (result, (s, p')) = build cfg (blank cfg, p) in (result, p')

  abbrev mongo_closed : Process W → Option MongoManager → Process W
  mongo_closed p none = p
  mongo_closed p (some m) =
      let (result, (m', w')) = Mongo.disconnect d.mongo (m, p.world) in
      record p { mongo = some m'; world = w' }

  abbrev redis_closed : Process W → Option RedisManager → Process W
  redis_closed p none = p
  redis_closed p (some m) =
      let (result, (m', w')) = Redis.disconnect d.redis (m, p.world) in
      record p { redis = some m'; world = w' }

  -- What closing fails with is only logged.
  unfoldable pub cleanup : Server → Process W → Process W
  cleanup s p =
      let p₁ = if s.has_mongo then mongo_closed p p.mongo else p in
      if s.has_redis then redis_closed p₁ p₁.redis else p₁

  -- What follows `g.Wait()` in `Start`.
  unfoldable pub after_wait : Server → Result (Unit {0}) → Exec (Process W) (Unit {0})
  unfolding cleanup
  after_wait s (err e) p = (err e, p)
  after_wait s (ok u) p = (ok tt, cleanup s p)
