-- ===== src/Auth/Main.antt =====
-- services/auth/main.go. The repository, the service and the handler are made without a call to the
-- outside, so what runs between the server's construction and its end is one parameter: how the
-- server serves (Server.Lifecycle), and what the requests do meanwhile.
pub mod Laws
use re_master.Prelude.{String, true, List, [], ◌∷◌}
use re_master.Exec.{Exec, Result, ok, err}
use re_master.Config.{Config}
use re_master.Server.Factory.{
  Server, Process, Drivers, ServerConfig, with_mongo, with_redis, new_server, after_wait,
}
use re_master.Server.Lifecycle.{Served, start_result}

-- How a program ends: by a panic, by `os.Exit` with 1, or by the end of `main`.
pub data Exit : Type 0 where
  panicked exit_one ended : Exit

module _ {W : Type 0} (d : Drivers W) where
  unfoldable pub auth_server : Config → ServerConfig W
  unfolding with_mongo with_redis
  auth_server cfg = record {
    name = "auth";
    config = cfg;
    enable_health_check = true;
    enable_reflection = true;
    interceptor_config = record { enable_logging = true; enable_recovery = true };
    dependencies = with_mongo d ∷ with_redis d ∷ [];
  }

  -- An error of `Start` is only logged.
  abbrev stopped : Server → Served × Process W → Exit × Process W
  stopped s (v, p) = (ended, (after_wait d s (start_result v) p).1)

  abbrev built :
      (Server → Process W → Served × Process W) → Result Server × Process W → Exit × Process W
  built serve (ok s, p) = stopped s (serve s p)
  built serve (err e, p) = (exit_one, p)

  abbrev configured :
      (Server → Process W → Served × Process W) → Result Config × Process W → Exit × Process W
  configured serve (ok cfg, p) = built serve (new_server d (auth_server cfg) p)
  configured serve (err e, p) = (panicked, p)

  unfoldable pub main :
      Exec (Process W) Config
      → (Server → Process W → Served × Process W)
      → Process W
      → Exit × Process W
  unfolding new_server auth_server after_wait start_result
  main load_config serve p = configured serve (load_config p)
