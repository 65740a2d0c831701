-- ===== src/Server/Process.antt =====
-- main of backend/cmd/server/main.go: the start, with what it defers, and the end after a signal.
-- The routes, the log lines and the metrics are left out.
pub mod Life
pub mod Ends
use pairly.Prelude.{ℕ, String, Bool, true, false, List, [], ◌∷◌, ◌++◌, map, if◌then◌else◌, nat_eq}
use pairly.Executor.Paths.{concat}
use pairly.Websocket.Registry.{Conn}
use pairly.Websocket.HubState.{new_hub}
use pairly.Websocket.Hub.{Hub, shutdown}
use pairly.Websocket.RoomHub.{RoomHub, room_shutdown}
use pairly.Websocket.NotifyHub.{NotifyHub, notify_shutdown}
use pairly.Server.Config.{Config, Loaded, loaded, missing, load}
use pairly.Server.Connections.{
  Libraries, connect_postgres, connect_mongo, connect_redis, tracing_init, logger_init, migrate_dsn,
  is_up,
}

-- What main closes by a defer.
pub data Part : Type 0 where
  tracing : Part
  logger : Part
  postgres_pool : Part
  mongo_client : Part
  redis_client : Part
  kafka_producer : Part
  executor_conn : Part
  signals : Part
  shutdown_timer : Part

-- The deferred calls, the last first, and the hubs.
pub record Server : Type 0 where
  pub deferred : List Part
  pub hub : Hub
  pub room_hub : RoomHub
  pub notify_hub : NotifyHub

-- A Fatal ends the process without its deferred calls. A panic runs them; here there are none yet.
pub data Started : Type 0 where
  running : Server → Started
  exited : List Part → Started
  panicked : Started

-- if err := ...; err != nil { Fatal }; defer ...
unfoldable pub opening : Bool → Part → List Part → (List Part → Started) → Started
opening true part opened next = next (part ∷ opened)
opening false part opened next = exited opened

-- if err := ...; err != nil { Fatal }
unfoldable pub checking : Bool → List Part → Started → Started
checking true opened next = next
checking false opened next = exited opened

abbrev pub new_server : List Part → Server
new_server opened = record {
  deferred = opened;
  hub = new_hub;
  room_hub = new_hub;
  notify_hub = new_hub;
}

-- signal.NotifyContext, and ListenAndServe, which fails in its goroutine.
unfoldable pub listening : Libraries → Config → List Part → Started
listening lib cfg opened =
    checking (lib.listen (concat ":" cfg.server_port)) (signals ∷ opened)
      (running (new_server (signals ∷ opened)))

-- The migrations, and what follows.
unfoldable pub after_connections : Libraries → Config → List Part → Started
after_connections lib cfg opened =
    checking (lib.new_migrate "file:///app/migrations" (migrate_dsn cfg)) opened
      (checking (is_up lib.migrate_up) opened (listening lib cfg opened))

unfoldable pub connect_all : Libraries → Config → List Part → Started
connect_all lib cfg opened = opening (connect_postgres lib cfg) postgres_pool opened (λ opened.
    opening (connect_mongo lib cfg) mongo_client opened (λ opened.
      opening (connect_redis lib cfg) redis_client opened (λ opened.
        opening (lib.grpc_client "executor:50051") executor_conn (kafka_producer ∷ opened)
          (after_connections lib cfg))))

-- An error of tracing is logged by a logger that is nil until logger.Init.
unfoldable pub start_with : Libraries → Config → Started
start_with lib cfg =
    if tracing_init lib "pairly-backend" cfg.jaeger_endpoint
    then opening (logger_init lib cfg.environment) logger (tracing ∷ []) (connect_all lib cfg)
    else panicked

unfoldable pub start : Libraries → Started
start lib = elim (load lib.viper) [ loaded cfg ↦ start_with lib cfg | missing name ↦ exited [] ]

pub data Event : Type 0 where
  http_stopped : Event
  drained : List Conn → Event
  closed : Part → Event

-- main after the signal: srv.Shutdown, whose error is only logged, the hubs, the deferred calls.
unfoldable pub shut_down : Server → List Event × Server
shut_down s =
    let (conns, hub) = shutdown s.hub in
    let (room_conns, room_hub) = room_shutdown s.room_hub in
    let (notify_conns, notify_hub) = notify_shutdown s.notify_hub in
    let closings = map closed (shutdown_timer ∷ s.deferred) in
    (
      http_stopped ∷ drained conns ∷ drained room_conns ∷ drained notify_conns ∷ closings,
      record { deferred = []; hub = hub; room_hub = room_hub; notify_hub = notify_hub },
    )
