-- ===== src/Websocket/Hub.antt =====
-- internal/websocket/hub.go: the connections to the contents of files.
use pairly.Prelude.{
  ℕ, ◌+◌, ◌≡◌, ◌↔◌, Bool, true, false, ◌&&◌, List, [], arith, if◌then◌else◌, Comparable, string_eq,
  nat_eq, ◌==◌, ==_iff, length,
}
use pairly.Websocket.Registry.{Conn, insert, without, has_key, conns_at, put, delete, all_conns}
use pairly.Websocket.HubState.{HubState, has_sub, subscribe_redis, close_sub}

-- channelKey: "room:" + roomID + ":file:" + fileID
pub record ChannelKey : Type 0 where
  pub room_id : ℕ
  pub file_id : ℕ

abbrev key_eq : ChannelKey → ChannelKey → Bool
key_eq k j = k.room_id == j.room_id && k.file_id == j.file_id

ChannelKey-ext : (k j : ChannelKey) → k.room_id ≡ j.room_id → k.file_id ≡ j.file_id → k ≡ j
ChannelKey-ext k j e f = cc

pub key_eq_iff : (k j : ChannelKey) → (key_eq k j ≡ true) ↔ (k ≡ j)
key_eq_iff k j =
    ground (arith, ChannelKey-ext k j, ==_iff k.room_id j.room_id, ==_iff k.file_id j.file_id)

instance abbrev pub channel_key_eq : Comparable ChannelKey
channel_key_eq = record { same = key_eq; same_iff = key_eq_iff }

abbrev pub Hub : Type 0
Hub = HubState ChannelKey

unfoldable pub register : Bool → Conn → ChannelKey → Hub → Bool × Hub
register accepted conn key h =
    if h.closed
    then (false, h)
    else let joined = record h {
      rooms = put key (insert conn (conns_at key h.rooms)) h.rooms;
      metrics = record h.metrics { connections_inc = h.metrics.connections_inc + 1 };
    } in
      (true, if has_sub key h.subs then joined else subscribe_redis accepted key joined)

unfoldable pub unregister : Conn → ChannelKey → Hub → Hub
unregister conn key h =
    let left = record h {
      rooms =
          if has_key key h.rooms
          then put key (without conn (conns_at key h.rooms)) h.rooms
          else h.rooms;
      metrics = record h.metrics { connections_dec = h.metrics.connections_dec + 1 };
    } in
    if length (conns_at key left.rooms) == 0
    then record (if has_sub key left.subs then close_sub key left else left) {
      rooms = delete key left.rooms;
    }
    else left

-- The connections that are closed, and the hub after that.
unfoldable pub shutdown : Hub → List Conn × Hub
shutdown h = (
  all_conns h.rooms,
  record h {
    closed = true;
    rooms = [];
    subs = [];
    metrics = record h.metrics {
      connections_dec = h.metrics.connections_dec + length (all_conns h.rooms);
    };
  },
)
