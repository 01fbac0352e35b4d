-- ===== src/Samples/Servers.antt =====
-- Servers in memory, to which the managers of shared/connection connect: which clients are open, the
-- number of the next one, and whether the server answers.
use re_master.Prelude.{ℕ, ◌+◌, Bool, true, false, nat_eq, refl, [], ◌∷◌, none, ◌==◌, if◌then◌else◌}
use re_master.Errors.Types.{plain}
use re_master.Exec.{ok, err}
use re_master.Connection.RedisManager as Redis
use re_master.Connection.RedisManager.{RedisConfig}
use re_master.Connection.RedisManager.Laws.{Tracks}
use re_master.Connection.MongoManager as Mongo
use re_master.Connection.MongoManager.{MongoConfig}
use re_master.Config.{Config}
use re_master.Server.Factory.{Drivers, Process, ServerConfig, with_mongo, with_redis}
use re_master.Server.Factory.Laws.{Promises}

pub record Servers : Type 0 where
  pub opened : ℕ → Bool
  pub next : ℕ
  pub answers : Bool

abbrev pub redis_driver : Redis.Driver Servers
redis_driver = record {
  new_client = λ o w. (
    w.next,
    record w { opened = λ c. if nat_eq c w.next then true else w.opened c; next = w.next + 1 },
  );
  ping = λ c w. (if w.answers then ok tt else err (plain "connection refused"), w);
  close = λ a w. (ok tt, record w { opened = λ c. if nat_eq c a then false else w.opened c });
}

pub redis_driver-Tracks : Tracks redis_driver (λ w c. w.opened c)
redis_driver-Tracks = record {
  after_new = λ o w c. refl;
  after_ping = λ a w c. refl;
  after_close = λ a w c. refl;
}

abbrev pub mongo_driver : Mongo.Driver Servers
mongo_driver = record {
  new_client = λ cfg w. (
    if w.answers then ok w.next else err (plain "no reachable servers"),
    record w { next = w.next + 1 },
  );
  ping = λ c w. (if w.answers then ok tt else err (plain "connection refused"), w);
  disconnect = λ a w. (ok tt, record w { opened = λ c. if nat_eq c a then false else w.opened c });
  start_session = λ c w. (ok 0, w);
  end_session = λ session w. w;
  with_transaction = λ session fn w. fn session w;
}

abbrev pub redis_config : RedisConfig
redis_config = record {
  host = "localhost";
  port = "6379";
  password = "";
  db = 0;
  pool_size = 10;
  min_idle_conns = 1;
  dial_timeout = 1;
  read_timeout = 1;
  write_timeout = 1;
}

abbrev pub mongo_config : MongoConfig
mongo_config = record {
  uri = "mongodb://localhost";
  database = "remaster";
  max_pool_size = 10;
  min_pool_size = 1;
  connect_timeout = 1;
  server_selection = 1;
}

abbrev pub silent : Servers
silent = record { opened = λ c. nat_eq c 3; next = 4; answers = false }

-- A server of each kind, and the number of the next listener or gRPC server.
pub record Cluster : Type 0 where
  pub redis : Servers
  pub mongo : Servers
  pub next_server : ℕ

abbrev on_redis : {A : Type 0} → (Servers → A × Servers) → Cluster → A × Cluster
on_redis m w = ((m w.redis).0, record w { redis = (m w.redis).1 })

abbrev on_mongo : {A : Type 0} → (Servers → A × Servers) → Cluster → A × Cluster
on_mongo m w = ((m w.mongo).0, record w { mongo = (m w.mongo).1 })

abbrev pub drivers : Drivers Cluster
drivers = record {
  mongo = record {
    new_client = λ cfg. on_mongo (mongo_driver.new_client cfg);
    ping = λ c. on_mongo (mongo_driver.ping c);
    disconnect = λ c. on_mongo (mongo_driver.disconnect c);
    start_session = λ c. on_mongo (mongo_driver.start_session c);
    end_session = λ c w. w;
    with_transaction = λ c fn w. fn c w;
  };
  redis = record {
    new_client = λ o. on_redis (redis_driver.new_client o);
    ping = λ c. on_redis (redis_driver.ping c);
    close = λ c. on_redis (redis_driver.close c);
  };
  network = record {
    listen = λ address w. (
      if address == "" then err (plain "missing port") else ok w.next_server,
      record w { next_server = w.next_server + 1 },
    );
    new_server = λ l w. (w.next_server, record w { next_server = w.next_server + 1 });
    register_health = λ a w. w;
    register_reflection = λ a w. w;
  };
}

abbrev pub redis_open : Cluster → ℕ → Bool
redis_open w c = w.redis.opened c

pub drivers-Promises : Promises drivers redis_open
drivers-Promises = record {
  redis = record {
    after_new = λ o w c. refl;
    after_ping = λ a w c. refl;
    after_close = λ a w c. refl;
  };
  mongo = record { new_client = λ cfg w. refl; ping = λ a w. refl; disconnect = λ a w. refl };
  network = record {
    listen = λ address w. refl;
    new_server = λ l w. refl;
    register_health = λ a w. refl;
    register_reflection = λ a w. refl;
  };
}

abbrev pub healthy : Servers
healthy = record { opened = λ c. false; next = 1; answers = true }

abbrev pub fresh : Process Cluster
fresh = record {
  mongo = none;
  redis = none;
  world = record { redis = healthy; mongo = healthy; next_server = 7 };
}

abbrev pub service_config : Config
service_config = record {
  app = record { name = "remaster"; environment = "development"; version = "1.0.0" };
  http = record {
    port = "8080";
    host = "0.0.0.0";
    idle_timeout = 1;
    read_timeout = 1;
    write_timeout = 1;
    shutdown_timeout = 1;
  };
  grpc = record {
    port = "9090";
    host = "0.0.0.0";
    max_receive_size = 4194304;
    max_send_size = 4194304;
    connection_timeout = 1;
    enable_reflection = true;
    enable_health_check = true;
  };
  mongo = mongo_config;
  redis = redis_config;
  jwt = record {
    secret_key = "k";
    access_token_ttl = 900;
    refresh_token_ttl = 86400;
    issuer = "remaster";
    audience = "remaster";
  };
  services =
      ("auth", record { name = "auth"; host = "auth"; grpc_port = "9091"; http_port = "8081" })
      ∷ [];
}

-- The configuration of the server in services/auth/main.go.
abbrev pub auth_server : ServerConfig Cluster
auth_server = record {
  name = "auth";
  config = service_config;
  enable_health_check = true;
  enable_reflection = true;
  interceptor_config = record { enable_logging = true; enable_recovery = true };
  dependencies = with_mongo drivers ∷ with_redis drivers ∷ [];
}
