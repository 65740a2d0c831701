-- ===== src/Server/Config/Required.antt =====
-- The settings of backend/internal/config/config.go: those that are required, and what each is for.
use pairly.Prelude.{
  ◌≡◌, refl, String, Bool, Option, none, some, List, [], ◌∷◌, ◌++◌, arith, string_eq, ◌==◌, find,
  All,
}
use pairly.Server.Config.{
  ℤ, pos, Viper, Config, Loaded, loaded, missing, server_config, load, executor_config,
  load_executor,
}

abbrev pub required : List String
required = "SERVER_PORT" ∷ "POSTGRES_HOST" ∷ "JWT_SECRET" ∷ []

abbrev pub executor_required : List String
executor_required = "POSTGRES_HOST" ∷ "MONGO_URI" ∷ []

abbrev pub is_unset : Viper → String → Bool
is_unset viper name = viper.get_string name == ""

-- The first of the settings that is not set is named, and without one there is a configuration.
unfoldable pub first_unset : Option String → Config → Loaded
first_unset none cfg = loaded cfg
first_unset (some name) cfg = missing name

-- A setting by its name in the environment, with its place in a configuration.
abbrev pub Setting : Type 0
Setting = String × (Config → String)

abbrev pub Number : Type 0
Number = String × (Config → ℤ)

-- The settings of both programs.
abbrev pub executor_settings : List Setting
executor_settings =
    ("POSTGRES_HOST", λ cfg. cfg.postgres_host)
    ∷ ("POSTGRES_PORT", λ cfg. cfg.postgres_port)
    ∷ ("POSTGRES_USER", λ cfg. cfg.postgres_user)
    ∷ ("POSTGRES_PASSWORD", λ cfg. cfg.postgres_password)
    ∷ ("POSTGRES_DB", λ cfg. cfg.postgres_db)
    ∷ ("MONGO_URI", λ cfg. cfg.mongo_uri)
    ∷ ("MONGO_DB", λ cfg. cfg.mongo_db)
    ∷ ("REDIS_HOST", λ cfg. cfg.redis_host)
    ∷ ("REDIS_PORT", λ cfg. cfg.redis_port)
    ∷ ("REDIS_PASSWORD", λ cfg. cfg.redis_password)
    ∷ ("KAFKA_BROKER", λ cfg. cfg.kafka_broker)
    ∷ ("JAEGER_ENDPOINT", λ cfg. cfg.jaeger_endpoint)
    ∷ ("METRICS_PORT", λ cfg. cfg.metrics_port)
    ∷ []

-- The settings of the server only.
abbrev pub server_settings : List Setting
server_settings =
    ("SERVER_PORT", λ cfg. cfg.server_port)
    ∷ ("ENVIRONMENT", λ cfg. cfg.environment)
    ∷ ("JWT_SECRET", λ cfg. cfg.jwt_secret)
    ∷ ("EXECUTOR_PORT", λ cfg. cfg.executor_port)
    ∷ ("EXECUTOR_URL", λ cfg. cfg.executor_url)
    ∷ ("GOOGLE_CLIENT_ID", λ cfg. cfg.google_client_id)
    ∷ ("GOOGLE_CLIENT_SECRET", λ cfg. cfg.google_client_secret)
    ∷ ("GOOGLE_REDIRECT_URL", λ cfg. cfg.google_redirect_url)
    ∷ []

abbrev pub max_conns : Number
max_conns = ("POSTGRES_MAX_CONNS", λ cfg. cfg.postgres_max_conns)

abbrev pub expiry_hours : Number
expiry_hours = ("JWT_EXPIRY_HOURS", λ cfg. cfg.jwt_expiry_hours)

abbrev pub Reads : Viper → Config → Setting → Type 0
Reads viper cfg s = s.1 cfg ≡ viper.get_string s.0

abbrev pub ReadsNumber : Viper → Config → Number → Type 0
ReadsNumber viper cfg s = s.1 cfg ≡ viper.get_int s.0

abbrev pub IsEmpty : Config → Setting → Type 0
IsEmpty cfg s = s.1 cfg ≡ ""

-- Load fails exactly where one of SERVER_PORT, POSTGRES_HOST and JWT_SECRET is not set, and
-- LoadExecutor where POSTGRES_HOST or MONGO_URI is not; the error names the first of them. Otherwise
-- Load has for each of its settings what viper has under the setting's own name; LoadExecutor has
-- that for the settings that both programs read, and the zero of its type for the server's own.
pub load-first_unset :
    (viper : Viper)
    → (load viper ≡ first_unset (find (is_unset viper) required) (server_config viper))
      × (load_executor viper
          ≡ first_unset (find (is_unset viper) executor_required) (executor_config viper))
      × All (Reads viper (server_config viper)) (executor_settings ++ server_settings)
      × All (ReadsNumber viper (server_config viper)) (max_conns ∷ expiry_hours ∷ [])
      × All (Reads viper (executor_config viper)) executor_settings
      × All (ReadsNumber viper (executor_config viper)) (max_conns ∷ [])
      × All (IsEmpty (executor_config viper)) server_settings
      × ((executor_config viper).jwt_expiry_hours ≡ pos 0)
unfolding load load_executor first_unset find server_config executor_config
load-first_unset viper = (
  ground arith,
  ground arith,
  (
    refl,
    (
      refl,
      (
        refl,
        (
          refl,
          (
            refl,
            (
              refl,
              (
                refl,
                (
                  refl,
                  (
                    refl,
                    (
                      refl,
                      (
                        refl,
                        (
                          refl,
                          (
                            refl,
                            (refl, (refl, (refl, (refl, (refl, (refl, (refl, (refl, tt)))))))),
                          ),
                        ),
                      ),
                    ),
                  ),
                ),
              ),
            ),
          ),
        ),
      ),
    ),
  ),
  (refl, (refl, tt)),
  (
    refl,
    (
      refl,
      (refl, (refl, (refl, (refl, (refl, (refl, (refl, (refl, (refl, (refl, (refl, tt))))))))))),
    ),
  ),
  (refl, tt),
  (refl, (refl, (refl, (refl, (refl, (refl, (refl, (refl, tt)))))))),
  refl,
)
