-- ===== src/Config/Loading.antt =====
-- `LoadConfig` of shared/config.go, over what viper does. The path that is passed is not read.
pub mod Laws
use re_master.Prelude.{ℕ, ◌*◌, String, Bool, true, false, not, List, [], ◌∷◌, if◌then◌else◌}
use re_master.Prelude.Maps.{Map}
use re_master.Errors.Types.{Error, wrapped}
use re_master.Exec.{Exec, Result, ok, err}
use re_master.Config.{Config, validate_config}

-- A default value.
pub data Setting : Type 0 where
  text : String → Setting
  number : ℕ → Setting
  switch : Bool → Setting
  texts : List String → Setting

-- What viper does, on a world that holds its settings, the file and the environment.
pub record Viper (W : Type 0) : Type 0 where
  pub add_config_path : String → W → W
  pub set_config_name : String → W → W
  pub set_config_type : String → W → W
  pub set_env_key_replacer : Map String → W → W
  pub automatic_env : W → W
  pub set_env_prefix : String → W → W
  pub set_default : String → Setting → W → W
  pub bind_env : String → String → W → W
  pub read_in_config : Exec W (Unit {0})
  -- Whether the error is a `ConfigFileNotFoundError`.
  pub is_not_found : Error → Bool
  pub unmarshal : Exec W Config

unfoldable pub defaults : Map Setting
defaults =
    ("app.name", text "remaster")
    ∷ ("app.environment", text "development")
    ∷ ("app.version", text "1.0.0")
    ∷ ("http.port", text "8080")
    ∷ ("http.host", text "0.0.0.0")
    ∷ ("http.read_timeout", text "10s")
    ∷ ("http.idle_timeout", text "5s")
    ∷ ("http.write_timeout", text "10s")
    ∷ ("http.shutdown_timeout", text "5s")
    ∷ ("grpc.port", text "9090")
    ∷ ("grpc.host", text "0.0.0.0")
    ∷ ("grpc.max_receive_size", number (4 * 1024 * 1024))
    ∷ ("grpc.max_send_size", number (4 * 1024 * 1024))
    ∷ ("grpc.connection_timeout", text "10s")
    ∷ ("grpc.enable_reflection", switch true)
    ∷ ("grpc.enable_health_check", switch true)
    ∷ ("mongo.uri", text "mongodb://localhost:27017")
    ∷ ("mongo.database", text "remasters_platform")
    ∷ ("mongo.max_pool_size", number 100)
    ∷ ("mongo.min_pool_size", number 5)
    ∷ ("mongo.connect_timeout", text "10s")
    ∷ ("mongo.server_selection_timeout", text "5s")
    ∷ ("redis.host", text "localhost")
    ∷ ("redis.port", text "6379")
    ∷ ("redis.password", text "")
    ∷ ("redis.db", number 0)
    ∷ ("redis.pool_size", number 20)
    ∷ ("redis.min_idle_conns", number 5)
    ∷ ("redis.dial_timeout", text "5s")
    ∷ ("redis.read_timeout", text "3s")
    ∷ ("redis.write_timeout", text "3s")
    ∷ ("jwt.secret_key", text "change-this-in-production-min-32-characters")
    ∷ ("jwt.access_token_ttl", text "15m")
    ∷ ("jwt.refresh_token_ttl", text "24h")
    ∷ ("jwt.issuer", text "remaster")
    ∷ ("jwt.audience", text "remaster-users")
    ∷ ("oauth.google_redirect_url", text "http://localhost:8080/auth/google/callback")
    ∷ ("aws.region", text "us-east-1")
    ∷ ("aws.s3_region", text "us-east-1")
    ∷ ("kafka.brokers", texts ("localhost:9092" ∷ []))
    ∷ ("kafka.group_id", text "remaster")
    ∷ ("kafka.auto_offset", text "latest")
    ∷ ("kafka.session_timeout", text "10s")
    ∷ ("kafka.retry_max", number 3)
    ∷ ("log.level", text "info")
    ∷ ("log.format", text "pretty")
    ∷ ("log.output", text "stdout")
    ∷ []

-- The order in which Go ranges over this map is that of the list.
unfoldable pub env_bindings : Map String
env_bindings =
    ("app.name", "APP_NAME")
    ∷ ("app.environment", "APP_ENV")
    ∷ ("app.version", "APP_VERSION")
    ∷ ("http.port", "HTTP_PORT")
    ∷ ("http.host", "HTTP_HOST")
    ∷ ("grpc.port", "GRPC_PORT")
    ∷ ("grpc.host", "GRPC_HOST")
    ∷ ("mongo.uri", "MONGO_URI")
    ∷ ("mongo.database", "MONGO_DATABASE")
    ∷ ("redis.host", "REDIS_HOST")
    ∷ ("redis.port", "REDIS_PORT")
    ∷ ("redis.password", "REDIS_PASSWORD")
    ∷ ("redis.db", "REDIS_DB")
    ∷ ("jwt.secret_key", "JWT_SECRET_KEY")
    ∷ ("jwt.access_token_ttl", "JWT_ACCESS_TOKEN_TTL")
    ∷ ("jwt.refresh_token_ttl", "JWT_REFRESH_TOKEN_TTL")
    ∷ ("oauth.google_client_id", "GOOGLE_CLIENT_ID")
    ∷ ("oauth.google_client_secret", "GOOGLE_CLIENT_SECRET")
    ∷ ("oauth.google_redirect_url", "GOOGLE_REDIRECT_URL")
    ∷ ("aws.region", "AWS_REGION")
    ∷ ("aws.access_key_id", "AWS_ACCESS_KEY_ID")
    ∷ ("aws.secret_access_key", "AWS_SECRET_ACCESS_KEY")
    ∷ ("aws.s3_bucket", "AWS_S3_BUCKET")
    ∷ ("kafka.brokers", "KAFKA_BROKERS")
    ∷ ("kafka.group_id", "KAFKA_GROUP_ID")
    ∷ ("log.level", "LOG_LEVEL")
    ∷ ("log.format", "LOG_FORMAT")
    ∷ ("log.output", "LOG_OUTPUT")
    ∷ ("log.file", "LOG_FILE")
    ∷ []

abbrev accepted : Config → Result (Unit {0}) → Result Config
accepted cfg (ok u) = ok cfg
accepted cfg (err e) = err (wrapped "config validation failed" e)

-- A configuration that is decoded is validated.
unfoldable pub decoded : Result Config → Result Config
unfolding validate_config
decoded (ok cfg) = accepted cfg (validate_config cfg)
decoded (err e) = err (wrapped "unable to decode config" e)

module _ {W : Type 0} (v : Viper W) where
  unfoldable pub set_all : Map Setting → W → W
  set_all [] w = w
  set_all ((key, value) ∷ rest) w = set_all rest (v.set_default key value w)

  unfoldable pub bind_all : Map String → W → W
  bind_all [] w = w
  bind_all ((key, env) ∷ rest) w = bind_all rest (v.bind_env key env w)

  unfoldable pub set_defaults : W → W
  unfolding set_all defaults
  set_defaults w = set_all defaults w

  unfoldable pub bind_env_vars : W → W
  unfolding bind_all env_bindings
  bind_env_vars w = bind_all env_bindings w

  -- What comes before the file is read.
  unfoldable pub prepare : W → W
  unfolding set_defaults bind_env_vars
  prepare w =
      let w₁ = v.set_config_type "yaml" (v.set_config_name "config" (v.add_config_path "." w)) in
      let w₂ =
        v.set_env_key_replacer ((".", "_") ∷ ("-", "_") ∷ ("grpc_port", "GRPCPort") ∷ []) w₁ in
      bind_env_vars (set_defaults (v.set_env_prefix "REMASTER" (v.automatic_env w₂)))

  -- A file that is not there is no error.
  abbrev found_or_not : Result (Unit {0}) → Result (Unit {0})
  found_or_not (ok u) = ok tt
  found_or_not (err e) =
      if v.is_not_found e then ok tt else err (wrapped "error reading config file" e)

  unfoldable pub read_file : Exec W (Unit {0})
  read_file w = let (result, w') = v.read_in_config w in (found_or_not result, w')

  unfoldable pub decode : Exec W Config
  unfolding decoded
  decode w = let (result, w') = v.unmarshal w in (decoded result, w')

  -- What follows the reading of the file.
  abbrev loaded : Result (Unit {0}) × W → Result Config × W
  loaded (ok u, w) = decode (bind_env_vars w)
  loaded (err e, w) = (err e, w)

  unfoldable pub load_config : Exec W Config
  unfolding prepare read_file decode bind_env_vars
  load_config w = loaded (read_file (prepare w))
