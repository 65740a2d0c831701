-- ===== src/Tests/Hubs.antt =====
-- The theorems of the websocket hubs and their handlers, on three connections.
use pairly.Prelude.{
  keep, ℕ, ◌+◌, ◌≡◌, refl, true, false, ◌&&◌, some, List, [], ◌∷◌, string_eq, nat_eq, length, any,
  find, All,
}
use pairly.Postgres.Schema.{owner, viewer}
use pairly.Postgres.Ownership.Roles.{role_in}
use pairly.Postgres.Rooms.{get_member_role}
use pairly.World.State.{query}
use pairly.World.Action.{call_or}
use pairly.Rooms.Shared.{member_role}
use pairly.Websocket.Registry.{holds, insert, has_key, conns_at, put, all_conns}
use pairly.Websocket.HubState.{has_sub, new_hub, subscribe_redis}
use pairly.Websocket.HubState.Abstract.{
  Op, register_op, unregister_op, shutdown_op, view, promised, run_all,
}
use pairly.Websocket.Hub.{ChannelKey, channel_key_eq, Hub, register, unregister}
use pairly.Websocket.RoomHub.{RoomHub, room_register, count_room}
use pairly.Websocket.Refinement.{hub_step, room_step, notify_step, run_all-promised}
use pairly.Websocket.Subscriptions.{has_no_conns, IsAccepted}
use pairly.Websocket.Delivery.{fan_out, servers, is_promised, fan_out-is_promised, run_all-has_sub}
use pairly.Websocket.Gauges.{History, start, after, IsProper, History-all_conns}
use pairly.Websocket.Gauges.Rooms.{has_conns, run_all-active_rooms}
use pairly.Websocket.Registry.Counts.{IsMap}
use pairly.Websocket.Handlers.{
  joined, serve_ws, serve_room, role_of_claims, join_hub, ws_loop, room_loop, RoomMessage,
}
use pairly.Websocket.Handlers.Sessions.{serve_ws-joined, serve_room-joined, viewer_loops}
use pairly.Executor.Job.{Executor}
use pairly.Tests.Fixtures.{world}

abbrev key : ChannelKey
key = record { room_id = 10; file_id = 21 }

-- Connections 1 and 2 join, and 1 leaves.
abbrev ops : List (Op ChannelKey)
ops = register_op true 1 key ∷ register_op true 2 key ∷ unregister_op 1 key ∷ []

abbrev room_ops : List (Op ℕ)
room_ops = register_op true 1 10 ∷ register_op true 3 11 ∷ unregister_op 3 11 ∷ []

-- Nobody may join after a shutdown.
abbrev notify_ops : List (Op ℕ)
notify_ops = register_op true 1 1 ∷ shutdown_op ∷ register_op true 2 1 ∷ []

run_all-promised_example :
    (((run_all hub_step ops new_hub).0, view (run_all hub_step ops new_hub).1)
      ≡ run_all promised ops (view new_hub))
    × (((run_all room_step room_ops new_hub).0, view (run_all room_step room_ops new_hub).1)
        ≡ run_all promised room_ops (view new_hub))
    × (((run_all notify_step notify_ops new_hub).0, view (run_all notify_step notify_ops new_hub).1)
        ≡ run_all promised notify_ops (view new_hub))
run_all-promised_example = run_all-promised ops room_ops notify_ops new_hub new_hub new_hub

notify_answers : (run_all promised notify_ops (view new_hub)).0 ≡ true ∷ true ∷ false ∷ []
unfolding run_all promised view
notify_answers = refl

room-IsAccepted : All IsAccepted room_ops
unfolding IsAccepted
room-IsAccepted = (refl, (refl, (tt, tt)))

ops-IsAccepted : All IsAccepted ops
unfolding IsAccepted
ops-IsAccepted = (refl, (refl, (tt, tt)))

notify-IsAccepted : All IsAccepted notify_ops
unfolding IsAccepted
notify-IsAccepted = (refl, (tt, (refl, tt)))

fan_out-is_promised_example :
    (holds 2 (fan_out key (servers hub_step (ops ∷ ops ∷ []))) ≡ is_promised key 2 (ops ∷ ops ∷ []))
    × (holds 2 (fan_out 10 (servers room_step (room_ops ∷ []))) ≡ is_promised 10 2 (room_ops ∷ []))
    × (holds 2 (fan_out 1 (servers notify_step (notify_ops ∷ [])))
        ≡ is_promised 1 2 (notify_ops ∷ []))
fan_out-is_promised_example =
    fan_out-is_promised (ops ∷ ops ∷ []) (room_ops ∷ []) (notify_ops ∷ [])
      (ops-IsAccepted, (ops-IsAccepted, tt)) (room-IsAccepted, tt) (notify-IsAccepted, tt) key 10 1
      2

run_all-has_sub_example :
    ((has_sub key (run_all hub_step ops new_hub).1.subs
        && has_no_conns (conns_at key (run_all hub_step ops new_hub).1.rooms))
      ≡ false)
    × ((has_sub 11 (run_all room_step room_ops new_hub).1.subs
          && has_no_conns (conns_at 11 (run_all room_step room_ops new_hub).1.rooms))
        ≡ false)
    × ((has_sub 1 (run_all notify_step notify_ops new_hub).1.subs
          && has_no_conns (conns_at 1 (run_all notify_step notify_ops new_hub).1.rooms))
        ≡ false)
run_all-has_sub_example = run_all-has_sub ops room_ops notify_ops key 11 1

run_all-active_rooms_example :
    let h = (run_all room_step room_ops new_hub).1 in
    IsMap h.rooms × (h.metrics.rooms_inc ≡ h.metrics.rooms_dec + length (keep has_conns h.rooms))
run_all-active_rooms_example = run_all-active_rooms room_ops room-IsAccepted

-- A connection joins the hub of the files, and one joins the hub of the rooms and leaves.
abbrev one_joined : Hub
one_joined = (hub_step (register_op true 1 key) new_hub).1

joined-History : History hub_step one_joined
unfolding IsProper holds any conns_at
joined-History = after new_hub (register_op true 1 key) start refl

abbrev room_joined : RoomHub
room_joined = (room_step (register_op true 1 10) new_hub).1

abbrev room_left : RoomHub
room_left = (room_step (unregister_op 1 10) room_joined).1

left-History : History room_step room_left
unfolding IsProper holds any conns_at room_step room_register insert put count_room subscribe_redis
    has_sub has_key
left-History =
    after room_joined (unregister_op 1 10) (after new_hub (register_op true 1 10) start refl) refl

History-all_conns_example :
    (one_joined.metrics.connections_inc
      ≡ one_joined.metrics.connections_dec + length (all_conns one_joined.rooms))
    × (room_left.metrics.connections_inc
        ≡ room_left.metrics.connections_dec + length (all_conns room_left.rooms))
History-all_conns_example = History-all_conns one_joined room_left joined-History left-History

-- User 1 opens the connections of a file and of its room.
owner_joins : (serve_ws (some 1) true true 7 key world new_hub).0 ≡ joined owner
unfolding serve_ws role_of_claims member_role call_or query get_member_role find join_hub register
owner_joins = refl

owner_joins_room : (serve_room (some 1) true true 7 10 world new_hub).0 ≡ joined owner
unfolding serve_room role_of_claims member_role call_or query get_member_role find join_hub
    room_register
owner_joins_room = refl

serve_ws-joined_example :
    (user : ℕ) × (some 1 ≡ some user)
    × (role_in world.db 10 user ≡ some owner)
    × (true ≡ true)
    × (false ≡ false)
    × ((view (serve_ws (some 1) true true 7 key world new_hub).2).members key 7 ≡ true)
serve_ws-joined_example = serve_ws-joined (some 1) true true 7 key world new_hub owner owner_joins

serve_room-joined_example :
    (user : ℕ) × (some 1 ≡ some user)
    × (role_in world.db 10 user ≡ some owner)
    × (true ≡ true)
    × (false ≡ false)
    × ((view (serve_room (some 1) true true 7 10 world new_hub).2).members 10 7 ≡ true)
serve_room-joined_example =
    serve_room-joined (some 1) true true 7 10 world new_hub owner owner_joins_room

abbrev executor : Executor
executor = record { world = world; locks = []; running = []; unsent = []; execution_events = [] }

-- A viewer asks for a run.
abbrev run_request : RoomMessage
run_request = record {
  bytes = 123 ∷ [];
  parsed = some (record { type_name = "run_file"; file_id = 21; execution_id = "x1" });
}

viewer_loops_example :
    let r = room_loop 7 viewer 2 10 (run_request ∷ []) executor new_hub in
    (ws_loop 7 viewer key ((1 ∷ []) ∷ []) world new_hub ≡ (world, unregister 7 key new_hub))
    × (r.0.running ≡ [])
    × (r.0.locks ≡ [])
    × ((view r.1).members 10 7 ≡ false)
viewer_loops_example =
    viewer_loops 7 key 2 ((1 ∷ []) ∷ []) (run_request ∷ []) world new_hub executor new_hub
