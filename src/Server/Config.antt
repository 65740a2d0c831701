-- ===== src/Server/Config.antt =====
-- backend/internal/config/config.go over what viper answers. The line about a missing .env is left
-- out.
pub mod Required
use pairly.Prelude.{ℕ, String, Bool, List, [], ◌∷◌, if◌then◌else◌, string_eq, ◌==◌}

pub data ℤ : Type 0 where
  pos : ℕ → ℤ
  negsuc : ℕ → ℤ

-- viper.GetString and viper.GetInt, which are "" and 0 for what is not set.
pub record Viper : Type 0 where
  pub get_string : String → String
  pub get_int : String → ℤ

pub record Config : Type 0 where
  pub server_port : String
  pub environment : String
  pub postgres_host : String
  pub postgres_port : String
  pub postgres_user : String
  pub postgres_password : String
  pub postgres_db : String
  pub postgres_max_conns : ℤ
  pub mongo_uri : String
  pub mongo_db : String
  pub redis_host : String
  pub redis_port : String
  pub redis_password : String
  pub jwt_secret : String
  pub jwt_expiry_hours : ℤ
  pub executor_port : String
  pub executor_url : String
  pub google_client_id : String
  pub google_client_secret : String
  pub google_redirect_url : String
  pub kafka_broker : String
  pub jaeger_endpoint : String
  pub metrics_port : String

-- A configuration, or the name of the setting that "is required".
pub data Loaded : Type 0 where
  loaded : Config → Loaded
  missing : String → Loaded

-- &Config{...} of Load
unfoldable pub server_config : Viper → Config
server_config viper = record {
  server_port = viper.get_string "SERVER_PORT";
  environment = viper.get_string "ENVIRONMENT";
  postgres_host = viper.get_string "POSTGRES_HOST";
  postgres_port = viper.get_string "POSTGRES_PORT";
  postgres_user = viper.get_string "POSTGRES_USER";
  postgres_password = viper.get_string "POSTGRES_PASSWORD";
  postgres_db = viper.get_string "POSTGRES_DB";
  postgres_max_conns = viper.get_int "POSTGRES_MAX_CONNS";
  mongo_uri = viper.get_string "MONGO_URI";
  mongo_db = viper.get_string "MONGO_DB";
  redis_host = viper.get_string "REDIS_HOST";
  redis_port = viper.get_string "REDIS_PORT";
  redis_password = viper.get_string "REDIS_PASSWORD";
  jwt_secret = viper.get_string "JWT_SECRET";
  jwt_expiry_hours = viper.get_int "JWT_EXPIRY_HOURS";
  executor_port = viper.get_string "EXECUTOR_PORT";
  executor_url = viper.get_string "EXECUTOR_URL";
  google_client_id = viper.get_string "GOOGLE_CLIENT_ID";
  google_client_secret = viper.get_string "GOOGLE_CLIENT_SECRET";
  google_redirect_url = viper.get_string "GOOGLE_REDIRECT_URL";
  kafka_broker = viper.get_string "KAFKA_BROKER";
  jaeger_endpoint = viper.get_string "JAEGER_ENDPOINT";
  metrics_port = viper.get_string "METRICS_PORT";
}

-- Load
unfoldable pub load : Viper → Loaded
load viper =
    let cfg = server_config viper in
    if cfg.server_port == ""
    then missing "SERVER_PORT"
    else if cfg.postgres_host == ""
    then missing "POSTGRES_HOST"
    else if cfg.jwt_secret == ""
    then missing "JWT_SECRET"
    else loaded cfg

-- &Config{...} of LoadExecutor; what it does not name is the zero of its type.
unfoldable pub executor_config : Viper → Config
executor_config viper = record {
  server_port = "";
  environment = "";
  postgres_host = viper.get_string "POSTGRES_HOST";
  postgres_port = viper.get_string "POSTGRES_PORT";
  postgres_user = viper.get_string "POSTGRES_USER";
  postgres_password = viper.get_string "POSTGRES_PASSWORD";
  postgres_db = viper.get_string "POSTGRES_DB";
  postgres_max_conns = viper.get_int "POSTGRES_MAX_CONNS";
  mongo_uri = viper.get_string "MONGO_URI";
  mongo_db = viper.get_string "MONGO_DB";
  redis_host = viper.get_string "REDIS_HOST";
  redis_port = viper.get_string "REDIS_PORT";
  redis_password = viper.get_string "REDIS_PASSWORD";
  jwt_secret = "";
  jwt_expiry_hours = pos 0;
  executor_port = "";
  executor_url = "";
  google_client_id = "";
  google_client_secret = "";
  google_redirect_url = "";
  kafka_broker = viper.get_string "KAFKA_BROKER";
  jaeger_endpoint = viper.get_string "JAEGER_ENDPOINT";
  metrics_port = viper.get_string "METRICS_PORT";
}

-- LoadExecutor
unfoldable pub load_executor : Viper → Loaded
load_executor viper =
    let cfg = executor_config viper in
    if cfg.postgres_host == ""
    then missing "POSTGRES_HOST"
    else if cfg.mongo_uri == ""
    then missing "MONGO_URI"
    else loaded cfg
