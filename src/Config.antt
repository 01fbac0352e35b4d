-- ===== src/Config.antt =====
-- shared/config.go: the settings that the code reads, their validation after loading, and the addresses
-- of the services. Durations are in nanoseconds. Config.Loading models the loading.
pub mod Laws
pub mod Loading
use re_master.Prelude.{
  ℕ, String, len, Bool, true, false, Option, none, some, ◌==◌, ltb, if◌then◌else◌,
}
use re_master.Prelude.Maps.{Map, lookup}
use re_master.Prelude.Text.{◌<>◌}
use re_master.Errors.Types.{plain}
use re_master.Exec.{Result, ok, err}
use re_master.Connection.RedisManager.{RedisConfig}
use re_master.Connection.MongoManager.{MongoConfig}

pub record AppConfig : Type 0 where
  pub name : String
  pub environment : String
  pub version : String

pub record HttpConfig : Type 0 where
  pub port : String
  pub host : String
  pub idle_timeout : ℕ
  pub read_timeout : ℕ
  pub write_timeout : ℕ
  pub shutdown_timeout : ℕ

pub record GrpcConfig : Type 0 where
  pub port : String
  pub host : String
  pub max_receive_size : ℕ
  pub max_send_size : ℕ
  pub connection_timeout : ℕ
  pub enable_reflection : Bool
  pub enable_health_check : Bool

pub record JwtConfig : Type 0 where
  pub secret_key : String
  pub access_token_ttl : ℕ
  pub refresh_token_ttl : ℕ
  pub issuer : String
  pub audience : String

pub record ServiceAddr : Type 0 where
  pub name : String
  pub host : String
  pub grpc_port : String
  pub http_port : String

-- `Config` without the parts that nothing here reads: OAuth, AWS, Kafka and the log.
pub record Config : Type 0 where
  pub app : AppConfig
  pub http : HttpConfig
  pub grpc : GrpcConfig
  pub mongo : MongoConfig
  pub redis : RedisConfig
  pub jwt : JwtConfig
  pub services : Map ServiceAddr

abbrev pub default_secret : String
default_secret = "change-this-in-production-min-32-characters"

-- The checks that follow those of the secret.
abbrev validate_stores : Config → Result (Unit {0})
validate_stores cfg =
    if cfg.mongo.uri == ""
    then err (plain "MongoDB URI is required")
    else if cfg.mongo.database == ""
    then err (plain "MongoDB database name is required")
    else if cfg.http.port == cfg.grpc.port
    then err (plain "HTTP and gRPC ports must be different")
    else ok tt

unfoldable pub validate_config : Config → Result (Unit {0})
validate_config cfg =
    if cfg.app.environment == "production"
    then if cfg.jwt.secret_key == default_secret
      then err (plain "JWT secret key must be changed in production")
      else if ltb (len cfg.jwt.secret_key) 32
      then err (plain "JWT secret key must be at least 32 characters")
      else validate_stores cfg
    else validate_stores cfg

abbrev address_of : String → Option ServiceAddr → Result String
address_of name none = err (plain ("service " <> name <> " not found in config"))
address_of name (some svc) = ok (svc.host <> ":" <> svc.grpc_port)

unfoldable pub get_service_grpc_addr : Config → String → Result String
unfolding lookup
get_service_grpc_addr cfg name = address_of name (lookup name cfg.services)
