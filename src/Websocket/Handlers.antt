-- ===== src/Websocket/Handlers.antt =====
-- internal/websocket/handler.go, room_handler.go and notify_handler.go: a connection from its
-- request to its end, one message at a time. Spans and log lines are left out.
pub mod Sessions
use pairly.Prelude.{
  ℕ, zero, suc, ◌+◌, ◌-◌, ◌*◌, ◌≤◌, ◌<◌, String, ◌≡◌, refl, sym, ap, subst, ◌∙◌, ◌≢◌, ◌↔◌, ◌⊎◌, inl,
  inr, Bool, true, false, not, ◌&&◌, ◌||◌, Option, none, some, List, [], ◌∷◌, ◌++◌, map, arith, ltb,
  leb, if◌then◌else◌, Comparable, string_eq, nat_eq, Bool-cases, ◌==◌, ==_iff, ==_refl,
  Option-cases, length, keep, any, find, update, All, length-append, All-keep, All-append,
}
use pairly.Postgres.Schema.{Role, owner, editor, viewer, role_eq}
use pairly.Mongo.Documents.{Bytes}
use pairly.World.Message.{
  Response, respond, Body, Channel, room_channel, file_channel, notify_channel, Event,
}
use pairly.World.State.{World, fault, called, publish}
use pairly.World.Action.{Result, ok, stop, hangs}
use pairly.Rooms.Shared.{fail, member_role}
use pairly.Executor.Job.{Job, Executor, Reply, started, already_running, lock_check_failed, execute}
use pairly.Websocket.Registry.{Conn}
use pairly.Websocket.HubState.{HubState}
use pairly.Websocket.Hub.{Hub, ChannelKey, register, unregister}
use pairly.Websocket.RoomHub.{RoomHub, room_register, room_unregister}
use pairly.Websocket.NotifyHub.{NotifyHub, notify_register, notify_unregister}

-- How a request ends: a response; an upgrade that failed; a close frame from a hub that is shut
-- down; or a connection, of a user with a role, or to the user's notifications. `waiting` is a query that does not end.
pub data Connected (A : Type 0) : Type 0 where
  refused : Response → Connected A
  upgrade_failed going_away waiting : Connected A
  joined : A → Connected A

-- auth.ParseToken gives the user of the token, or none for an error.
unfoldable pub role_of_claims : ℕ → Option ℕ → World → Result Role × World
role_of_claims room_id none w = (stop (fail 401 "unauthorized"), w)
role_of_claims room_id (some user) w = member_role "not a member of this room" room_id user w

-- ServeWS and ServeRoom after the role: the upgrade and Register.
unfoldable pub join_hub :
    {H : Type 0} → Bool → (H → Bool × H) → Result Role → H → Connected Role × H
join_hub upgraded enter (stop r) h = (refused r, h)
join_hub upgraded enter hangs h = (waiting, h)
join_hub upgraded enter (ok role) h =
    if not upgraded
    then (upgrade_failed, h)
    else let (entered, h') = enter h in (if entered then joined role else going_away, h')

-- ServeWS up to its loop; `accepted` is the answer of Redis to a subscription.
unfoldable pub serve_ws :
    Option ℕ → Bool → Bool → Conn → ChannelKey → World → Hub → Connected Role × World × Hub
serve_ws claims upgraded accepted conn key w hub =
    let (role, w') = role_of_claims key.room_id claims w in
    let (c, hub') = join_hub upgraded (register accepted conn key) role hub in (c, w', hub')

-- Hub.Broadcast
unfoldable pub broadcast : ChannelKey → Bytes → World → Hub → World × Hub
broadcast key bytes w hub = (
  publish (file_channel key.room_id key.file_id) (Event.raw bytes) w,
  if fault w
      then record hub {
        metrics = record hub.metrics { publish_errors = hub.metrics.publish_errors + 1 };
      }
      else hub,
)

-- One message in the loop of ServeWS.
unfoldable pub ws_message : Role → ChannelKey → Bytes → World → Hub → World × Hub
ws_message role key bytes w hub = if role == viewer then (w, hub) else broadcast key bytes w hub

-- The loop of ServeWS over the messages until an error, then the deferred Unregister.
unfoldable pub ws_loop : Conn → Role → ChannelKey → List Bytes → World → Hub → World × Hub
ws_loop conn role key [] w hub = (w, unregister conn key hub)
ws_loop conn role key (m ∷ ms) w hub =
    let (w', hub') = ws_message role key m w hub in ws_loop conn role key ms w' hub'

-- ServeRoom up to its loop
unfoldable pub serve_room :
    Option ℕ → Bool → Bool → Conn → ℕ → World → RoomHub → Connected Role × World × RoomHub
serve_room claims upgraded accepted conn room_id w hub =
    let (role, w') = role_of_claims room_id claims w in
    let (c, hub') = join_hub upgraded (room_register accepted conn room_id) role hub in
    (c, w', hub')

-- RoomHub.Publish, of which ServeRoom at most logs the error.
unfoldable pub publish_room : ℕ → Event → World → RoomHub → World × RoomHub
publish_room room_id event w hub = (
  publish (room_channel room_id) event w,
  if fault w
      then record hub {
        metrics = record hub.metrics { publish_errors = hub.metrics.publish_errors + 1 };
      }
      else hub,
)

-- The call of the executor, which may fail on its way.
unfoldable pub call_execute : Job → Executor → Reply × Executor
call_execute job e =
    if fault e.world
    then (lock_check_failed, record e { world = called e.world })
    else execute job (record e { world = called e.world })

abbrev pub publish_on : ℕ → Event → Executor → RoomHub → Executor × RoomHub
publish_on room_id event e hub =
    let (w, hub') = publish_room room_id event e.world hub in (record e { world = w }, hub')

-- The event for what the executor answered.
unfoldable pub reply_event : Job → ℕ → Reply → Event
reply_event job user_id started = Event.executing job.file_id job.room_id user_id
reply_event job user_id already_running = Event.execution_error job.file_id "already_running"
reply_event job user_id lock_check_failed = Event.execution_error job.file_id "error"

-- handleRunFile
unfoldable pub handle_run_file : Role → ℕ → Job → Executor → RoomHub → Executor × RoomHub
handle_run_file role user_id job e hub =
    if not (role == owner) && not (role == editor)
    then publish_on job.room_id (Event.execution_error job.file_id "permission_denied") e hub
    else let (reply, e') = call_execute job e in
      publish_on job.room_id (reply_event job user_id reply) e' hub

-- A message of the room's channel: its bytes, with its type, file_id and execution_id if it is the
-- JSON of an incomingMessage.
pub record IncomingMessage : Type 0 where
  pub type_name : String
  pub file_id : ℕ
  pub execution_id : String

pub record RoomMessage : Type 0 where
  pub bytes : Bytes
  pub parsed : Option IncomingMessage

-- The switch in the loop of ServeRoom.
unfoldable pub room_message : Role → ℕ → ℕ → RoomMessage → Executor → RoomHub → Executor × RoomHub
room_message role user_id room_id m e hub = elim m.parsed [
  | none ↦ publish_on room_id (Event.raw m.bytes) e hub
  | some msg ↦
      if msg.type_name == "run_file"
      then handle_run_file role user_id
          (record { room_id = room_id; file_id = msg.file_id; execution_id = msg.execution_id }) e
          hub
      else publish_on room_id (Event.raw m.bytes) e hub
]

-- The loop of ServeRoom over the messages until an error, then the deferred Unregister.
unfoldable pub room_loop :
    Conn → Role → ℕ → ℕ → List RoomMessage → Executor → RoomHub → Executor × RoomHub
room_loop conn role user_id room_id [] e hub = (e, room_unregister conn room_id hub)
room_loop conn role user_id room_id (m ∷ ms) e hub =
    let (e', hub') = room_message role user_id room_id m e hub in
    room_loop conn role user_id room_id ms e' hub'

-- ServeNotify up to its loop
unfoldable pub serve_notify : Option ℕ → Bool → Bool → Conn → NotifyHub → Connected ℕ × NotifyHub
serve_notify none upgraded accepted conn hub = (refused (fail 401 "unauthorized"), hub)
serve_notify (some user) upgraded accepted conn hub =
    if not upgraded
    then (upgrade_failed, hub)
    else let (entered, hub') = notify_register accepted conn user hub in
      (if entered then joined user else going_away, hub')

-- The loop of ServeNotify over the messages until an error, then the deferred Unregister.
unfoldable pub notify_loop : Conn → ℕ → List Bytes → NotifyHub → NotifyHub
notify_loop conn user_id [] hub = notify_unregister conn user_id hub
notify_loop conn user_id (m ∷ ms) hub = notify_loop conn user_id ms hub
