-- ===== src/Samples/Gateway.antt =====
-- A request in memory: the context that the gateway's middleware and handlers work on, with the world
-- of the authentication service behind it.
use re_master.Prelude.{
  ℕ, ◌+◌, String, refl, Option, none, some, List, [], ◌∷◌, ◌++◌, is_empty, not, ◌==◌, if◌then◌else◌,
}
use re_master.Prelude.Maps.{Map, lookup, insert, lookup-insert}
use re_master.Errors.Types.{Error, plain, grpc_status}
use re_master.Errors.Handlers.{Status}
use re_master.Errors.Handlers.EndToEnd.{Decodes}
use re_master.Exec.{ok, err, Exec}
use re_master.Redis.{Redis}
use re_master.Auth.Handler as Rpc
use re_master.Auth.Handler.{CallContext}
use re_master.Auth.Oauth.{new_provider_factory}
use re_master.Gateway.Context.{Gin, Binding, AuthClient, KeyValue, Reply}
use re_master.Gateway.Handlers.{Handlers}
use re_master.Gateway.Middleware.Access.{KeepsRole}
use re_master.Gateway.Middleware.Replies.{Observes}
use re_master.Samples.{World, platform, config, redis}

pub record Request : Type 0 where
  pub authorization : String
  pub email : String
  pub password : String
  pub token : String
  pub keys : Map KeyValue
  pub errors : List Error
  pub replies : List Reply
  pub headers : Map String
  pub counter : ℕ
  pub service : World

abbrev pub gin : Gin Request
gin = record {
  method = λ c. "POST";
  path = λ c. "/auth/login";
  client_ip = λ c. "192.0.2.1";
  get_header = λ name c. if name == "Authorization" then c.authorization else "";
  set_header = λ name value c. record c { headers = insert name value c.headers };
  get = λ key c. lookup key c.keys;
  set = λ key value c. record c { keys = insert key value c.keys };
  add_error = λ e c. record c { errors = c.errors ++ e ∷ [] };
  errors = λ c. c.errors;
  abort = λ c. c;
  abort_with_status = λ status c. c;
  json = λ reply c. record c { replies = c.replies ++ reply ∷ [] };
  written = λ c. not (is_empty c.replies);
  new_uuid = λ c. ("4d5d2a0e", c);
}

-- An operation of the service, on the service's world.
abbrev remote : {A : Type 0} → Exec World A → Exec Request A
remote m c = ((m c.service).0, record c { service = (m c.service).1 })

abbrev pub caller : CallContext
caller = record { metadata = []; peer = none }

abbrev pub client : AuthClient Request
client = record {
  registration = λ req. remote (Rpc.registration platform config caller req);
  login = λ req. remote (Rpc.login platform config caller req);
  oauth_login = λ req. remote (
      Rpc.oauth_login platform config
        (new_provider_factory
          (record { google_client_id = ""; facebook_app_id = ""; facebook_app_secret = "" }))
        caller req);
  refresh_token = λ req. remote (Rpc.refresh_token platform config caller req);
  validate_token = λ req. remote (Rpc.validate_token platform config req);
  logout = λ req. remote (Rpc.logout platform req);
  change_password = λ req. remote (Rpc.change_password platform req);
  health = remote (Rpc.health platform);
}

abbrev binding : Binding Request
binding = record {
  bind_register = λ c. (err (plain "EOF"), c);
  bind_login = λ c. (ok (record { email = c.email; password = c.password }), c);
  bind_oauth = λ c. (err (plain "EOF"), c);
  bind_refresh = λ c. (ok (record { refresh_token = c.token }), c);
  bind_validate = λ c. (ok (record { access_token = c.token }), c);
  bind_password = λ c. (err (plain "EOF"), c);
}

abbrev pub from_error : Error → Option Status
from_error (grpc_status c m) = some (record { code = c; message = m; details = [] })
from_error _ = none

abbrev pub handlers : Handlers Request
handlers = record {
  gin = gin;
  binding = binding;
  client = client;
  from_error = from_error;
  code_string = λ c. "Code";
  library_text = λ e. "library error";
}

-- The gateway's Redis, of which only the counter of requests is used.
abbrev pub counter : Redis Request
counter = record {
  get = λ key. remote (redis.get key);
  get_int = λ key. remote (redis.get_int key);
  ttl = λ key. remote (redis.ttl key);
  duration_text = redis.duration_text;
  incr_key = λ key c. (ok (c.counter + 1), record c { counter = c.counter + 1 });
  expire_key = λ key d c. (ok tt, c);
  pipeline = λ commands. remote (redis.pipeline commands);
  set = λ key value d. remote (redis.set key value d);
  del = λ key. remote (redis.del key);
  exists = λ key. remote (redis.exists key);
  scan = λ pattern n c. (([], ok tt), c);
}

pub handlers-Decodes : Decodes handlers.from_error
handlers-Decodes c m h = refl

pub gin-Observes : Observes gin (λ c. c.replies)
gin-Observes = record {
  json-replies = λ r c. refl;
  json-errors = λ r c. refl;
  add_error-replies = λ e c. refl;
  add_error-errors = λ e c. refl;
  abort-replies = λ c. refl;
  abort-errors = λ c. refl;
}

pub client-KeepsRole : KeepsRole gin client
client-KeepsRole = record {
  after_set = λ v c. lookup-insert "user_id" "user_role" v c.keys;
  after_call = λ req c. refl;
}
