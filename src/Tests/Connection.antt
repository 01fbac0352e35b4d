-- ===== src/Tests/Connection.antt =====
-- Instances of the theorems on shared/connection, on the servers in memory.
use re_master.Prelude.{◌≡◌, refl, none, some, arith, ap}
use re_master.Errors.Types.{plain, wrapped}
use re_master.Exec.{err}
use re_master.Connection.RedisManager as Redis
use re_master.Connection.RedisManager.{RedisManager}
use re_master.Connection.RedisManager.Laws.{NoLeak, manager-NoLeak}
use re_master.Connection.MongoManager as Mongo
use re_master.Connection.MongoManager.{MongoManager}
use re_master.Connection.MongoManager.Laws.{IsPaired, manager-IsPaired}
use re_master.Samples.Servers.{
  Servers, redis_driver, redis_driver-Tracks, mongo_driver, redis_config, mongo_config, silent,
}

abbrev held : RedisManager
held = record { client = some 3; config = redis_config }

third_open : NoLeak (λ (w : Servers) c. w.opened c) (held, silent)
third_open c h = ap some (ground arith)

manager-NoLeak_example :
    NoLeak (λ (w : Servers) c. w.opened c) (Redis.connect redis_driver (held, silent)).1
    × NoLeak (λ (w : Servers) c. w.opened c) (Redis.disconnect redis_driver (held, silent)).1
manager-NoLeak_example = manager-NoLeak redis_driver-Tracks (held, silent) third_open

-- The server is silent, so connecting fails, and no client is held or open.
connect_fails :
    ((Redis.connect redis_driver (held, silent)).1.0.client ≡ none)
    × ((Redis.connect redis_driver (held, silent)).0
        ≡ err (wrapped "failed to ping Redis" (plain "connection refused")))
unfolding Redis.connect
connect_fails = (refl, refl)

abbrev paired : MongoManager
paired = record { client = some 3; database = some (3, "remaster"); config = mongo_config }

manager-IsPaired_example :
    IsPaired (Mongo.connect mongo_driver (paired, silent)).1.0
    × IsPaired (Mongo.disconnect mongo_driver (paired, silent)).1.0
manager-IsPaired_example = manager-IsPaired mongo_driver paired silent refl
