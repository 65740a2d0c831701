-- ===== src/Server/Process/Ends.antt =====
-- The end of a server that backend/cmd/server/main.go started.
use pairly.Prelude.{
  ◌∙◌, any, ℕ, ◌≡◌, refl, sym, ap, Bool, false, ◌||◌, some, List, [], ◌∷◌, arith, string_eq, nat_eq,
  ◌==◌, length, keep,
}
use pairly.Websocket.Registry.{Conn, Entry, holds, all_conns}
use pairly.Websocket.HubState.Abstract.{Op}
use pairly.Websocket.Hub.{ChannelKey, channel_key_eq, register, shutdown}
use pairly.Websocket.RoomHub.{room_register, room_shutdown}
use pairly.Websocket.NotifyHub.{notify_register, notify_shutdown}
use pairly.Websocket.Delivery.{holds-append}
use pairly.Server.Connections.{Libraries}
use pairly.Server.Process.{
  Part, tracing, logger, postgres_pool, mongo_client, redis_client, kafka_producer, executor_conn,
  signals, shutdown_timer, Server, running, start, closed, shut_down,
}
use pairly.Server.Process.Life.{
  all_parts, start-running, serve, times_closed, closings, index_of, is_drained, last_event,
}

-- A hub holds the connection under some key.
abbrev pub is_in : {K : Type 0} → Conn → List (Entry K) → Bool
is_in c m = any (λ e. holds c e.conns) m

holds-all_conns : {K : Type 0} (c : Conn) (m : List (Entry K)) → holds c (all_conns m) ≡ is_in c m
unfolding all_conns any holds
holds-all_conns c [] = refl
holds-all_conns c (e ∷ m) =
    holds-append c e.conns (all_conns m) ∙ ap (λ b. holds c e.conns || b) (holds-all_conns c m)

one_of :
    (part : Part)
    → length (keep (λ p. index_of p == index_of part) (shutdown_timer ∷ all_parts)) ≡ 1
unfolding keep
one_of tracing = refl
one_of logger = refl
one_of postgres_pool = refl
one_of mongo_client = refl
one_of redis_client = refl
one_of kafka_producer = refl
one_of executor_conn = refl
one_of signals = refl
one_of shutdown_timer = refl

closes_each :
    (s : Server) (part : Part) → s.deferred ≡ all_parts → times_closed part (shut_down s).0 ≡ 1
unfolding times_closed shut_down closings keep
closes_each s part e = rw e (one_of part)

tracing_last :
    (s : Server) → s.deferred ≡ all_parts → last_event (shut_down s).0 ≡ some (closed tracing)
unfolding last_event shut_down
tracing_last s e = rw e refl

drains_hubs :
    (s : Server) (c : Conn)
    → is_drained c (shut_down s).0
      ≡ (is_in c s.hub.rooms || is_in c s.room_hub.rooms || is_in c s.notify_hub.rooms)
unfolding is_drained shut_down shutdown room_shutdown notify_shutdown
drains_hubs s c = ground (
  arith,
  holds-all_conns c s.hub.rooms,
  holds-all_conns c s.room_hub.rooms,
  holds-all_conns c s.notify_hub.rooms,
)

refuses_all :
    (s : Server) (accepted : Bool) (c : Conn) (k : ChannelKey) (room user : ℕ)
    → ((register accepted c k (shut_down s).1.hub).0 ≡ false)
      × ((room_register accepted c room (shut_down s).1.room_hub).0 ≡ false)
      × ((notify_register accepted c user (shut_down s).1.notify_hub).0 ≡ false)
unfolding shut_down shutdown room_shutdown notify_shutdown register room_register notify_register
refuses_all s accepted c k room user = (refl, refl, refl)

-- A server that started, and whose hubs went through any operations since, ends as follows after a
-- signal, with or without connections: exactly the connections that a hub holds are closed before
-- anything that main deferred; each deferred call of main is made once, the one of tracing after all
-- others; and every hub refuses a connection after that.
pub shut_down-serve :
    (lib : Libraries) (s : Server)
    → start lib ≡ running s
    → (ops : List (Op ChannelKey)) (room_ops notify_ops : List (Op ℕ)) (accepted : Bool) (c : Conn)
      (k : ChannelKey) (room user : ℕ) (part : Part)
    → let t = serve ops room_ops notify_ops s in
      let r = shut_down t in
      (is_drained c r.0
        ≡ (is_in c t.hub.rooms || is_in c t.room_hub.rooms || is_in c t.notify_hub.rooms))
      × (times_closed part r.0 ≡ 1)
      × (last_event r.0 ≡ some (closed tracing))
      × ((register accepted c k r.1.hub).0 ≡ false)
      × ((room_register accepted c room r.1.room_hub).0 ≡ false)
      × ((notify_register accepted c user r.1.notify_hub).0 ≡ false)
unfolding serve
shut_down-serve lib s e ops room_ops notify_ops accepted c k room user part =
    let t = serve ops room_ops notify_ops s in
    let parts : s.deferred ≡ all_parts = sym (ap (λ s. s.deferred) (start-running lib s e)) in
    let refused = refuses_all t accepted c k room user in
    (
      drains_hubs t c,
      closes_each t part parts,
      tracing_last t parts,
      refused.0,
      refused.1,
      refused.2,
    )
