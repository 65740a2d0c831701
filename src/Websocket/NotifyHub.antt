-- ===== src/Websocket/NotifyHub.antt =====
-- internal/websocket/notify_hub.go: the connections of a user to his notifications.
use pairly.Prelude.{ℕ, Bool, true, false, List, [], if◌then◌else◌, string_eq, nat_eq, ◌==◌, length}
use pairly.Websocket.Registry.{Conn, insert, without, has_key, conns_at, put, delete, all_conns}
use pairly.Websocket.HubState.{HubState, has_sub, subscribe_redis, close_sub}

abbrev pub NotifyHub : Type 0
NotifyHub = HubState ℕ

unfoldable pub notify_register : Bool → Conn → ℕ → NotifyHub → Bool × NotifyHub
notify_register accepted conn user_id h =
    if h.closed
    then (false, h)
    else let joined = record h {
      rooms = put user_id (insert conn (conns_at user_id h.rooms)) h.rooms;
    } in
      (true, if has_sub user_id h.subs then joined else subscribe_redis accepted user_id joined)

unfoldable pub notify_unregister : Conn → ℕ → NotifyHub → NotifyHub
notify_unregister conn user_id h =
    let left = record h {
      rooms =
          if has_key user_id h.rooms
          then put user_id (without conn (conns_at user_id h.rooms)) h.rooms
          else h.rooms;
    } in
    if length (conns_at user_id left.rooms) == 0
    then record (if has_sub user_id left.subs then close_sub user_id left else left) {
      rooms = delete user_id left.rooms;
    }
    else left

-- The connections that are closed, and the hub after that.
unfoldable pub notify_shutdown : NotifyHub → List Conn × NotifyHub
notify_shutdown h = (all_conns h.rooms, record h { closed = true; rooms = []; subs = [] })
