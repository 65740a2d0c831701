-- ===== src/Server/Process/Life.antt =====
-- A server of backend/cmd/server/main.go from its start to its end.
use pairly.Prelude.{
  ℕ, ◌≡◌, Bool, true, false, ◌||◌, Option, none, some, List, [], ◌∷◌, if◌then◌else◌, string_eq,
  nat_eq, ◌==◌, length, keep,
}
use pairly.Websocket.Registry.{Conn, holds}
use pairly.Websocket.HubState.Abstract.{Op, run_all}
use pairly.Websocket.Hub.{ChannelKey, channel_key_eq}
use pairly.Websocket.Refinement.{hub_step, room_step, notify_step}
use pairly.Server.Config.{Config, Loaded, loaded, missing, load}
use pairly.Server.Connections.{Libraries}
use pairly.Server.Process.{
  Part, tracing, logger, postgres_pool, mongo_client, redis_client, kafka_producer, executor_conn,
  signals, shutdown_timer, Server, Started, running, exited, panicked, opening, checking,
  new_server, after_connections, listening, connect_all, start_with, start, Event, http_stopped,
  drained, closed,
}

abbrev pub all_parts : List Part
all_parts =
    signals ∷ executor_conn ∷ kafka_producer ∷ redis_client ∷ mongo_client ∷ postgres_pool ∷ logger
    ∷ tracing ∷ []

opening-running :
    (b : Bool) (part : Part) (opened : List Part) (next : List Part → Started) (s : Server)
    → opening b part opened next ≡ running s
    → next (part ∷ opened) ≡ running s
unfolding opening
opening-running true part opened next s e = e
opening-running false part opened next s e = absurd (cc)

checking-running :
    (b : Bool) (opened : List Part) (next : Started) (s : Server)
    → checking b opened next ≡ running s
    → next ≡ running s
unfolding checking
checking-running true opened next s e = e
checking-running false opened next s e = absurd (cc)

panicking-running :
    (b : Bool) (next : Started) (s : Server)
    → (if b then next else panicked) ≡ running s
    → next ≡ running s
panicking-running true next s e = e
panicking-running false next s e = absurd (cc)

after_connections-running :
    (lib : Libraries) (cfg : Config) (opened : List Part) (s : Server)
    → after_connections lib cfg opened ≡ running s
    → running (new_server (signals ∷ opened)) ≡ running s
unfolding after_connections listening
after_connections-running lib cfg opened s e =
    checking-running _ _ _ s (checking-running _ _ _ s (checking-running _ _ _ s e))

connect_all-running :
    (lib : Libraries) (cfg : Config) (opened : List Part) (s : Server)
    → connect_all lib cfg opened ≡ running s
    → running (
        new_server (
          signals ∷ executor_conn ∷ kafka_producer ∷ redis_client ∷ mongo_client ∷ postgres_pool
          ∷ opened))
      ≡ running s
unfolding connect_all
connect_all-running lib cfg opened s e = after_connections-running lib cfg _ s (
    opening-running _ _ _ _ s
      (opening-running _ _ _ _ s (opening-running _ _ _ _ s (opening-running _ _ _ _ s e))))

start_with-running :
    (lib : Libraries) (cfg : Config) (s : Server)
    → start_with lib cfg ≡ running s
    → running (new_server all_parts) ≡ running s
unfolding start_with
start_with-running lib cfg s e =
    connect_all-running lib cfg _ s (opening-running _ _ _ _ s (panicking-running _ _ s e))

running-injective : (s t : Server) → running s ≡ running t → s ≡ t
running-injective s t e = cc

after_load :
    (lib : Libraries) (l : Loaded) (s : Server)
    → (elim l [ loaded cfg ↦ start_with lib cfg | missing name ↦ exited [] ]) ≡ running s
    → new_server all_parts ≡ s
after_load lib (loaded cfg) s e = running-injective _ s (start_with-running lib cfg s e)
after_load lib (missing name) s e = absurd (cc)

pub start-running :
    (lib : Libraries) (s : Server) → start lib ≡ running s → new_server all_parts ≡ s
unfolding start
start-running lib s e = after_load lib (load lib.viper) s e

-- The hubs went through the operations.
unfoldable pub serve : List (Op ChannelKey) → List (Op ℕ) → List (Op ℕ) → Server → Server
serve ops room_ops notify_ops s = record s {
  hub = (run_all hub_step ops s.hub).1;
  room_hub = (run_all room_step room_ops s.room_hub).1;
  notify_hub = (run_all notify_step notify_ops s.notify_hub).1;
}

abbrev pub index_of : Part → ℕ
index_of tracing = 0
index_of logger = 1
index_of postgres_pool = 2
index_of mongo_client = 3
index_of redis_client = 4
index_of kafka_producer = 5
index_of executor_conn = 6
index_of signals = 7
index_of shutdown_timer = 8

-- The parts that the events close.
unfoldable pub closings : List Event → List Part
closings [] = []
closings (http_stopped ∷ es) = closings es
closings (drained cs ∷ es) = closings es
closings (closed part ∷ es) = part ∷ closings es

unfoldable pub times_closed : Part → List Event → ℕ
times_closed part events = length (keep (λ p. index_of p == index_of part) (closings events))

-- Whether a connection is among those that the events close before any part.
unfoldable pub is_drained : Conn → List Event → Bool
is_drained conn [] = false
is_drained conn (http_stopped ∷ es) = is_drained conn es
is_drained conn (drained cs ∷ es) = holds conn cs || is_drained conn es
is_drained conn (closed part ∷ es) = false

unfoldable pub last_event : List Event → Option Event
last_event [] = none
last_event (e ∷ []) = some e
last_event (e ∷ f ∷ es) = last_event (f ∷ es)
