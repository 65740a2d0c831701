-- ===== src/Server/Connections.antt =====
-- Connect of backend/internal/postgres/postgres.go, mongo/mongo.go and redis/redis.go, Init of
-- tracing/tracing.go and logger/logger.go, and the migrations: what the libraries are asked for, and
-- whether they answer without an error. The mutation of their own globals is theirs.
use pairly.Prelude.{
  ℕ, ◌-◌, String, Bool, true, false, ◌&&◌, List, [], ◌∷◌, if◌then◌else◌, string_eq, ltb, ◌==◌,
}
use Prim.Native.Nat.{◌%◌, ◌^◌}
use pairly.Executor.Paths.{concat}
use pairly.Server.Config.{ℤ, pos, negsuc, Viper, Config}

pub data Migrated : Type 0 where
  migrated : Migrated
  no_change : Migrated
  not_migrated : Migrated

-- The libraries, `true` where a call has no error.
pub record Libraries : Type 0 where
  pub viper : Viper
  pub parse_pool_config : String → Bool
  pub new_pool : String → ℤ → Bool
  pub ping_pool : Bool
  pub mongo_connect : String → Bool
  pub ping_mongo : Bool
  pub ping_redis : String → String → Bool
  pub otlp_client : String → Bool
  pub otlp_exporter : Bool
  pub otel_resource : String → Bool
  pub zap_production : Bool
  pub zap_development : Bool
  pub grpc_client : String → Bool
  pub new_migrate : String → String → Bool
  pub migrate_up : Migrated
  pub listen : String → Bool

abbrev pub concat_all : List String → String
concat_all [] = ""
concat_all (s ∷ ss) = concat s (concat_all ss)

-- int32(x)
abbrev pub signed32 : ℕ → ℤ
signed32 m = if ltb m 2147483648 then pos m else negsuc (4294967295 - m)

unfoldable pub int32 : ℤ → ℤ
int32 (pos n) = signed32 (n % 2 ^ 32)
int32 (negsuc n) = signed32 (4294967295 - n % 2 ^ 32)

unfoldable pub pool_dsn : Config → String
pool_dsn cfg = concat_all (
    "host=" ∷ cfg.postgres_host ∷ " port=" ∷ cfg.postgres_port ∷ " user=" ∷ cfg.postgres_user
    ∷ " password=" ∷ cfg.postgres_password ∷ " dbname=" ∷ cfg.postgres_db ∷ " sslmode=disable" ∷ [])

unfoldable pub connect_postgres : Libraries → Config → Bool
connect_postgres lib cfg =
    lib.parse_pool_config (pool_dsn cfg)
    && lib.new_pool (pool_dsn cfg) (int32 cfg.postgres_max_conns)
    && lib.ping_pool

unfoldable pub connect_mongo : Libraries → Config → Bool
connect_mongo lib cfg = lib.mongo_connect cfg.mongo_uri && lib.ping_mongo

unfoldable pub connect_redis : Libraries → Config → Bool
connect_redis lib cfg =
    lib.ping_redis (concat_all (cfg.redis_host ∷ ":" ∷ cfg.redis_port ∷ [])) cfg.redis_password

unfoldable pub tracing_init : Libraries → String → String → Bool
tracing_init lib service_name endpoint =
    lib.otlp_client endpoint && lib.otlp_exporter && lib.otel_resource service_name

unfoldable pub logger_init : Libraries → String → Bool
logger_init lib environment =
    if environment == "production" then lib.zap_production else lib.zap_development

-- dsn of main
unfoldable pub migrate_dsn : Config → String
migrate_dsn cfg = concat_all (
    "postgres://" ∷ cfg.postgres_user ∷ ":" ∷ cfg.postgres_password ∷ "@" ∷ cfg.postgres_host ∷ ":"
    ∷ cfg.postgres_port ∷ "/" ∷ cfg.postgres_db ∷ "?sslmode=disable" ∷ [])

unfoldable pub is_up : Migrated → Bool
is_up migrated = true
is_up no_change = true
is_up not_migrated = false
