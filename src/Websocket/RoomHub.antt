-- ===== src/Websocket/RoomHub.antt =====
-- internal/websocket/room_hub.go: the connections to the channel of a room.
use pairly.Prelude.{
  ℕ, ◌+◌, Bool, true, false, List, [], if◌then◌else◌, string_eq, nat_eq, ◌==◌, length,
}
use pairly.Websocket.Registry.{Conn, insert, without, has_key, conns_at, put, delete, all_conns}
use pairly.Websocket.HubState.{Metrics, HubState, has_sub, subscribe_redis, close_sub}

abbrev pub RoomHub : Type 0
RoomHub = HubState ℕ

unfoldable pub count_room : ℕ → RoomHub → Metrics → Metrics
count_room room_id h m =
    if has_key room_id h.rooms then m else record m { rooms_inc = m.rooms_inc + 1 }

unfoldable pub room_register : Bool → Conn → ℕ → RoomHub → Bool × RoomHub
unfolding count_room
room_register accepted conn room_id h =
    if h.closed
    then (false, h)
    else let counted = count_room room_id h h.metrics in
      let joined = record h {
        rooms = put room_id (insert conn (conns_at room_id h.rooms)) h.rooms;
        metrics = record counted {
          connections_inc = counted.connections_inc + 1;
          room_joins = counted.room_joins + 1;
        };
      } in
      (true, if has_sub room_id h.subs then joined else subscribe_redis accepted room_id joined)

-- if h.subs[roomID] != nil { Close; delete; ActiveRoomsTotal.Dec }
unfoldable pub close_room : ℕ → RoomHub → RoomHub
close_room room_id h =
    if has_sub room_id h.subs
    then record (close_sub room_id h) {
      metrics = record h.metrics { rooms_dec = h.metrics.rooms_dec + 1 };
    }
    else h

unfoldable pub room_unregister : Conn → ℕ → RoomHub → RoomHub
unfolding close_room
room_unregister conn room_id h =
    let left = record h {
      rooms =
          if has_key room_id h.rooms
          then put room_id (without conn (conns_at room_id h.rooms)) h.rooms
          else h.rooms;
      metrics = record h.metrics { connections_dec = h.metrics.connections_dec + 1 };
    } in
    if length (conns_at room_id left.rooms) == 0
    then record (close_room room_id left) { rooms = delete room_id left.rooms }
    else left

-- The connections that are closed, and the hub after that.
unfoldable pub room_shutdown : RoomHub → List Conn × RoomHub
room_shutdown h = (
  all_conns h.rooms,
  record h {
    closed = true;
    rooms = [];
    subs = [];
    metrics = record h.metrics {
      connections_dec = h.metrics.connections_dec + length (all_conns h.rooms);
      rooms_dec = h.metrics.rooms_dec + length h.rooms;
    };
  },
)
