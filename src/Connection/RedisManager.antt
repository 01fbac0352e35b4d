-- ===== src/Connection/RedisManager.antt =====
-- shared/connection/redis.go
pub mod Laws
pub mod Commands
use re_master.Prelude.{ℕ, String, Bool, Option, none, some}
use re_master.Prelude.Text.{◌<>◌}
use re_master.Errors.Types.{Error, plain, wrapped}
use re_master.Exec.{Result, ok, err, Exec, replaced}

pub record RedisConfig : Type 0 where
  pub host : String
  pub port : String
  pub password : String
  pub db : ℕ
  pub pool_size : ℕ
  pub min_idle_conns : ℕ
  pub dial_timeout : ℕ
  pub read_timeout : ℕ
  pub write_timeout : ℕ

pub record Options : Type 0 where
  pub addr : String
  pub password : String
  pub db : ℕ
  pub pool_size : ℕ
  pub min_idle_conns : ℕ
  pub dial_timeout : ℕ
  pub read_timeout : ℕ
  pub write_timeout : ℕ

-- What the driver does.
pub record Driver (W : Type 0) : Type 0 where
  pub new_client : Options → W → ℕ × W
  pub ping : ℕ → Exec W (Unit {0})
  pub close : ℕ → Exec W (Unit {0})

pub record RedisManager : Type 0 where
  pub client : Option ℕ
  pub config : RedisConfig

-- `NewRedisManager`, the first time that it is called.
abbrev pub new_redis_manager : RedisConfig → RedisManager
new_redis_manager cfg = record { client = none; config = cfg }

abbrev pub options : RedisConfig → Options
options cfg = record {
  addr = cfg.host <> ":" <> cfg.port;
  password = cfg.password;
  db = cfg.db;
  pool_size = cfg.pool_size;
  min_idle_conns = cfg.min_idle_conns;
  dial_timeout = cfg.dial_timeout;
  read_timeout = cfg.read_timeout;
  write_timeout = cfg.write_timeout;
}

module _ {W : Type 0} (d : Driver W) where
  -- What follows the ping of a new client.
  abbrev pinged : RedisConfig → ℕ → Result (Unit {0}) × W → Result (Unit {0}) × (RedisManager × W)
  pinged cfg c (ok u, w) = (ok tt, (record { client = some c; config = cfg }, w))
  pinged cfg c (err e, w) = (
    err (wrapped "failed to ping Redis" e),
    (record { client = none; config = cfg }, (d.close c w).1),
  )

  unfoldable pub open_client : RedisConfig → W → Result (Unit {0}) × (RedisManager × W)
  open_client cfg w = let (c, w₁) = d.new_client (options cfg) w in pinged cfg c (d.ping c w₁)

  -- What follows the ping of the client that the manager holds.
  abbrev reconnect :
      RedisConfig → ℕ → Result (Unit {0}) × W → Result (Unit {0}) × (RedisManager × W)
  reconnect cfg c (ok u, w) = (ok tt, (record { client = some c; config = cfg }, w))
  reconnect cfg c (err e, w) = open_client cfg (d.close c w).1

  abbrev connect_from : RedisConfig → Option ℕ → W → Result (Unit {0}) × (RedisManager × W)
  connect_from cfg none w = open_client cfg w
  connect_from cfg (some c) w = reconnect cfg c (d.ping c w)

  unfoldable pub connect : RedisManager × W → Result (Unit {0}) × (RedisManager × W)
  unfolding open_client
  connect (m, w) = connect_from m.config m.client w

  abbrev closed : RedisManager → Result (Unit {0}) × W → Result (Unit {0}) × (RedisManager × W)
  closed m (ok u, w) = (ok tt, (record m { client = none }, w))
  closed m (err e, w) = (err (wrapped "failed to disconnect Redis" e), (m, w))

  abbrev disconnect_from : RedisManager → Option ℕ → W → Result (Unit {0}) × (RedisManager × W)
  disconnect_from m none w = (ok tt, (m, w))
  disconnect_from m (some c) w = closed m (d.close c w)

  unfoldable pub disconnect : RedisManager × W → Result (Unit {0}) × (RedisManager × W)
  disconnect (m, w) = disconnect_from m m.client w

  abbrev health_check_of : Option ℕ → Exec W (Unit {0})
  health_check_of none w = (err (plain "redis client not initialized"), w)
  health_check_of (some c) w = d.ping c w

  unfoldable pub health_check : RedisManager → Exec W (Unit {0})
  health_check m = health_check_of m.client
