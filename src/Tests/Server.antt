-- ===== src/Tests/Server.antt =====
-- The theorems of the server's process, with libraries that answer.
use pairly.Prelude.{
  All, ◌++◌, ℕ, ◌≡◌, refl, true, false, ◌||◌, some, if◌then◌else◌, ◌==◌, find, List, [], ◌∷◌,
  string_eq, nat_eq,
}
use pairly.Websocket.HubState.Abstract.{Op, register_op}
use pairly.Websocket.Hub.{ChannelKey, channel_key_eq, register}
use pairly.Websocket.RoomHub.{room_register}
use pairly.Websocket.NotifyHub.{notify_register}
use pairly.Server.Config.{Viper, pos, missing, load, load_executor, server_config, executor_config}
use pairly.Server.Config.Required.{
  first_unset, is_unset, required, executor_required, Reads, ReadsNumber, IsEmpty,
  executor_settings, server_settings, max_conns, expiry_hours, load-first_unset,
}
use pairly.Server.Connections.{
  Libraries, migrated, connect_postgres, connect_mongo, connect_redis, tracing_init, logger_init,
  is_up,
}
use pairly.Server.Process.{
  Server, running, new_server, opening, checking, after_connections, listening, connect_all,
  start_with, start, tracing, redis_client, closed, shut_down,
}
use pairly.Server.Process.Life.{all_parts, serve, times_closed, is_drained, last_event}
use pairly.Server.Process.Ends.{is_in, shut_down-serve}

-- Every setting is its name.
abbrev viper : Viper
viper = record { get_string = λ name. name; get_int = λ name. pos 20 }

abbrev lib : Libraries
lib = record {
  viper = viper;
  parse_pool_config = λ dsn. true;
  new_pool = λ dsn max. true;
  ping_pool = true;
  mongo_connect = λ uri. true;
  ping_mongo = true;
  ping_redis = λ addr password. true;
  otlp_client = λ endpoint. true;
  otlp_exporter = true;
  otel_resource = λ name. true;
  zap_production = true;
  zap_development = true;
  grpc_client = λ target. true;
  new_migrate = λ source dsn. true;
  migrate_up = migrated;
  listen = λ addr. true;
}

-- All is set but the secret.
abbrev no_secret : Viper
no_secret = record viper { get_string = λ name. if name == "JWT_SECRET" then "" else name }

names_secret : load no_secret ≡ missing "JWT_SECRET"
unfolding load server_config
names_secret = refl

load-first_unset_example :
    (load no_secret ≡ first_unset (find (is_unset no_secret) required) (server_config no_secret))
    × (load_executor no_secret
        ≡ first_unset (find (is_unset no_secret) executor_required) (executor_config no_secret))
    × All (Reads no_secret (server_config no_secret)) (executor_settings ++ server_settings)
    × All (ReadsNumber no_secret (server_config no_secret)) (max_conns ∷ expiry_hours ∷ [])
    × All (Reads no_secret (executor_config no_secret)) executor_settings
    × All (ReadsNumber no_secret (executor_config no_secret)) (max_conns ∷ [])
    × All (IsEmpty (executor_config no_secret)) server_settings
    × ((executor_config no_secret).jwt_expiry_hours ≡ pos 0)
load-first_unset_example = load-first_unset no_secret

starts : start lib ≡ running (new_server all_parts)
unfolding start load server_config start_with tracing_init logger_init opening connect_all
    connect_postgres connect_mongo connect_redis after_connections listening checking is_up
starts = refl

abbrev key : ChannelKey
key = record { room_id = 10; file_id = 21 }

abbrev server : Server
server = new_server all_parts

-- Connection 7 edits a file, and connection 8 listens for notifications.
abbrev ops : List (Op ChannelKey)
ops = register_op true 7 key ∷ []

abbrev notify_ops : List (Op ℕ)
notify_ops = register_op true 8 1 ∷ []

shut_down-serve_example :
    let t = serve ops [] notify_ops server in
    let r = shut_down t in
    (is_drained 7 r.0
      ≡ (is_in 7 t.hub.rooms || is_in 7 t.room_hub.rooms || is_in 7 t.notify_hub.rooms))
    × (times_closed redis_client r.0 ≡ 1)
    × (last_event r.0 ≡ some (closed tracing))
    × ((register true 7 key r.1.hub).0 ≡ false)
    × ((room_register true 7 10 r.1.room_hub).0 ≡ false)
    × ((notify_register true 7 1 r.1.notify_hub).0 ≡ false)
shut_down-serve_example =
    shut_down-serve lib server starts ops [] notify_ops true 7 key 10 1 redis_client
