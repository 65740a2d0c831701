-- ===== src/Websocket/HubState.antt =====
-- The state of a hub: the fields of Hub, RoomHub and NotifyHub but the client and the logger, and
-- what the hub added to the counters of the process.
pub mod Abstract
pub mod Plain
use pairly.Prelude.{
  ℕ, zero, suc, ◌+◌, ◌-◌, ◌*◌, ◌≤◌, ◌<◌, String, ◌≡◌, refl, sym, ap, subst, ◌∙◌, ◌≢◌, ◌↔◌, ◌⊎◌, inl,
  inr, Bool, true, false, not, ◌&&◌, ◌||◌, Option, none, some, List, [], ◌∷◌, ◌++◌, map, arith, ltb,
  leb, if◌then◌else◌, Comparable, string_eq, nat_eq, Bool-cases, ◌==◌, ==_iff, ==_refl,
  Option-cases, length, keep, any, find, update, All, length-append, All-keep, All-append,
}
use pairly.Websocket.Registry.{
  Conn, Entry, holds, insert, without, has_key, conns_at, put, delete, all_conns,
}

-- A gauge is the number of its Inc calls and the number of its Dec calls.
pub record Metrics : Type 0 where
  pub connections_inc : ℕ
  pub connections_dec : ℕ
  pub rooms_inc : ℕ
  pub rooms_dec : ℕ
  pub room_joins : ℕ
  pub publish_errors : ℕ

-- `subs` holds the keys of the map of subscriptions; each has one open subscription of Redis.
pub record HubState (K : Type 0) : Type 0 where
  pub closed : Bool
  pub rooms : List (Entry K)
  pub subs : List K
  pub metrics : Metrics

abbrev pub no_metrics : Metrics
no_metrics = record {
  connections_inc = 0;
  connections_dec = 0;
  rooms_inc = 0;
  rooms_dec = 0;
  room_joins = 0;
  publish_errors = 0;
}

-- NewHub, NewRoomHub, NewNotifyHub
abbrev pub new_hub : {K : Type 0} → HubState K
new_hub = record { closed = false; rooms = []; subs = []; metrics = no_metrics }

module _ {K : Type 0} ⦃eq : Comparable K⦄ where
  unfoldable pub has_sub : K → List K → Bool
  has_sub k subs = any (λ j. j == k) subs

  -- `accepted` says whether Redis accepts the subscription.
  unfoldable pub subscribe_redis : Bool → K → HubState K → HubState K
  subscribe_redis accepted k h = if accepted then record h { subs = k ∷ h.subs } else h

  unfoldable pub close_sub : K → HubState K → HubState K
  close_sub k h = record h { subs = keep (λ j. not (j == k)) h.subs }

  -- The goroutine of subscribeRedis: the connections that a message on the channel of the key is
  -- written to, none without a subscription.
  unfoldable pub receivers : K → HubState K → List Conn
  receivers k h = if has_sub k h.subs then conns_at k h.rooms else []
