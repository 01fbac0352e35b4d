-- ===== src/Tests/Factory.antt =====
-- A server of the authentication service, made, stopped and failing, on servers in memory.
use re_master.Prelude.{◌≡◌, refl, true, none, some, All}
use re_master.Prelude.Runs.{Inevitable}
use re_master.Errors.Types.{plain, wrapped}
use re_master.Exec.{Result, err}
use re_master.Exec.Keeps.{Keeps}
use re_master.Server.Factory.{
  Server, Process, ServerConfig, new_server, after_wait, with_mongo, with_redis,
}
use re_master.Server.Factory.Laws.{
  Owned, held, new_server-Owned, with_mongo-KeepsOwned, with_redis-KeepsOwned,
}
use re_master.Server.Factory.Ends.{EndsAs, after_wait-ends}
use re_master.Server.Lifecycle.{
  Run, started, Step, receive, begin, time_out, Reach, here, next, Finished, served, failed, clean,
  received, handle, draining, forced, start_result,
}
use re_master.Server.Lifecycle.Laws.{signal_finishes, cancelled_awaits_signal, Idle}
use re_master.Samples.Servers.{
  Cluster, drivers, redis_open, drivers-Promises, fresh, auth_server, service_config,
}

abbrev made : Result Server × Process Cluster
made = new_server drivers auth_server fresh

-- Both singletons are connected, and the server is returned with its listener.
connected : (held made.1.redis ≡ some 1) × (redis_open made.1.world 1 ≡ true)
unfolding new_server with_mongo with_redis
connected = (refl, refl)

-- Without an address for the service nothing is returned, and the client of Redis stays open.
abbrev nameless : ServerConfig Cluster
nameless = record auth_server { name = "billing" }

left_open :
    ((new_server drivers nameless fresh).0
      ≡ err (wrapped "failed to get gRPC address" (plain "service billing not found in config")))
    × (redis_open (new_server drivers nameless fresh).1.world 1 ≡ true)
unfolding new_server with_mongo with_redis
left_open = (refl, refl)

options-KeepsOwned : All (λ m. Keeps (Owned redis_open) m) auth_server.dependencies
options-KeepsOwned =
    (with_mongo-KeepsOwned drivers-Promises, (with_redis-KeepsOwned drivers-Promises, tt))

-- A signal, the begin of the graceful stop, and its time limit.
abbrev forced_stop : Run
forced_stop = handle forced (handle draining (received started))

forced-Reach : Reach 3 forced_stop
unfolding handle received
forced-Reach =
    next (next (next here (receive refl refl)) (begin refl refl refl)) (time_out refl refl)

signalled : forced_stop.signalled ≡ true
unfolding handle received
signalled = refl

signal_finishes_example : Inevitable Step Finished forced_stop
signal_finishes_example = signal_finishes 3 forced_stop forced-Reach signalled

abbrev failing : Run
failing = served (failed (plain "accept: too many open files")) started

failing_cancelled : failing.cancelled ≡ true
unfolding served
failing_cancelled = refl

cancelled_awaits_signal_example : Inevitable Step Idle failing
cancelled_awaits_signal_example = cancelled_awaits_signal failing failing_cancelled

-- The server that was made, whose serving ends.
abbrev server : Server
server = record {
  name = "auth";
  config = service_config;
  grpc_manager = none;
  has_mongo = true;
  has_redis = true;
}

server-Owned : Owned redis_open (server, made.1)
server-Owned = λ c h. (
  refl,
  (new_server-Owned drivers-Promises auth_server fresh options-KeepsOwned (λ a. refl)).0 c h,
)

after_wait-ends_example :
    EndsAs redis_open made.1 clean (after_wait drivers server (start_result clean) made.1)
after_wait-ends_example = after_wait-ends drivers-Promises server made.1 clean server-Owned
