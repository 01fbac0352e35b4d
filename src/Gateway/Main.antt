-- ===== src/Gateway/Main.antt =====
-- services/api-gateway/main.go. What is made without a call to the outside, the error handler and the
-- logger, is left out.
use re_master.Exec.{Exec, Result, ok, err}
use re_master.Auth.Main.{Exit, panicked, exit_one, ended}
use re_master.Connection.RedisManager as Redis
use re_master.Connection.RedisManager.{RedisManager, new_redis_manager}
use re_master.Config.{Config}
use re_master.Gateway.Server.{Server, Dialer, new_server, start}

-- What the gateway runs on its server and the manager of Redis, once its connections are made: its
-- routes (Gateway.Routes.Table) and its goroutines (Gateway.Server.Lifecycle).
abbrev pub Serve : Type 0 → Type 0
Serve W = RedisManager → Exec (Server × W) (Unit {0})

module _ {W : Type 0} (driver : Redis.Driver W) (d : Dialer W) (serve : Serve W) where
  abbrev started : Result (Unit {0}) × (Server × W) → Exit × W
  started (ok u, (s, w)) = (ended, w)
  started (err e, (s, w)) = (exit_one, w)

  abbrev connected : Config → Result (Unit {0}) × (RedisManager × W) → Exit × W
  connected cfg (ok u, (m, w)) = started (start d (serve m) (new_server cfg, w))
  connected cfg (err e, (m, w)) = (exit_one, w)

  abbrev configured : Result Config × W → Exit × W
  configured (ok cfg, w) = connected cfg (Redis.connect driver (new_redis_manager cfg.redis, w))
  configured (err e, w) = (panicked, w)

  -- Nothing closes the client of Redis.
  unfoldable pub main : Exec W Config → W → Exit × W
  unfolding start Redis.connect
  main load_config w = configured (load_config w)
