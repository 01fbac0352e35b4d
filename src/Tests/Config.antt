-- ===== src/Tests/Config.antt =====
-- Instances of the theorem on shared/config.go.
use re_master.Prelude.{◌≡◌, ◌↔◌, [], ◌∷◌, true, refl}
use re_master.Errors.Types.{plain}
use re_master.Exec.{ok, err}
use re_master.Config.{Config, default_secret, validate_config, get_service_grpc_addr}
use re_master.Config.Laws.{IsSound, validate_config_iff}
use re_master.Samples.Servers.{redis_config, mongo_config}

abbrev production : Config
production = record {
  app = record { name = "remaster"; environment = "production"; version = "1.0.0" };
  http = record {
    port = "8080";
    host = "0.0.0.0";
    idle_timeout = 5;
    read_timeout = 10;
    write_timeout = 10;
    shutdown_timeout = 5;
  };
  grpc = record {
    port = "9090";
    host = "0.0.0.0";
    max_receive_size = 4194304;
    max_send_size = 4194304;
    connection_timeout = 10;
    enable_reflection = true;
    enable_health_check = true;
  };
  mongo = mongo_config;
  redis = redis_config;
  jwt = record {
    secret_key = default_secret;
    access_token_ttl = 900;
    refresh_token_ttl = 86400;
    issuer = "remaster";
    audience = "remaster-users";
  };
  services =
      ("auth", record { name = "auth"; host = "auth"; grpc_port = "9091"; http_port = "" }) ∷ [];
}

validate_config_iff_example : (validate_config production ≡ ok tt) ↔ IsSound production
validate_config_iff_example = validate_config_iff production

default_secret_refused :
    validate_config production ≡ err (plain "JWT secret key must be changed in production")
unfolding validate_config
default_secret_refused = refl

auth_address : get_service_grpc_addr production "auth" ≡ ok "auth:9091"
unfolding get_service_grpc_addr
auth_address = refl
