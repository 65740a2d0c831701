-- ===== src/Websocket/Gauges.antt =====
-- The gauge of the connections against the connections of the hubs that count them.
pub mod Rooms
use pairly.Prelude.{
  ℕ, ◌+◌, ◌≡◌, refl, sym, ap, subst, inl, inr, Bool, true, false, List, arith, if◌then◌else◌,
  Comparable, string_eq, nat_eq, Bool-cases, length, any,
}
use pairly.Websocket.Registry.{
  Conn, Entry, holds, insert, without, has_key, conns_at, put, all_conns,
}
use pairly.Websocket.Registry.Views.{conns_at_missing}
use pairly.Websocket.Registry.Counts.{
  IsMap, insert-IsUnique, without-IsUnique, length-insert, length-without, conns_at-IsUnique,
  put-IsMap, delete-IsMap, length-put, length-delete,
}
use pairly.Websocket.HubState.{HubState, new_hub}
use pairly.Websocket.HubState.Abstract.{Op, register_op, unregister_op, shutdown_op}
use pairly.Websocket.HubState.Plain.{core, plain, IsPlain, kept_rooms, is_last, left_rooms}
use pairly.Websocket.HubState.{subscribe_redis, close_sub}
use pairly.Websocket.Hub.{ChannelKey, channel_key_eq, register, unregister, shutdown}
use pairly.Websocket.RoomHub.{room_register, room_unregister, room_shutdown, count_room, close_room}
use pairly.Websocket.Refinement.{hub_step, room_step, hub_step-IsPlain, room_step-IsPlain}

module _ {K : Type 0} ⦃eq : Comparable K⦄ where
  -- A connection registers once, and unregisters while it is registered.
  unfoldable pub IsProper : Op K → HubState K → Type 0
  IsProper (register_op accepted c k) h = holds c (conns_at k h.rooms) ≡ false
  IsProper (unregister_op c k) h = holds c (conns_at k h.rooms) ≡ true
  IsProper shutdown_op h = Unit

  pub data History (step : Op K → HubState K → Bool × HubState K) : HubState K → Type 0 where
    start : History step new_hub
    after :
        (h : HubState K) (op : Op K) → History step h → IsProper op h → History step (step op h).1

  kept-IsMap : (c : Conn) (k : K) (m : List (Entry K)) → IsMap m → IsMap (kept_rooms c k m)
  kept-IsMap c k m u = elim (Bool-cases (has_key k m)) [
    | inl e ↦ rw e (
        put-IsMap k (without c (conns_at k m)) m
          (without-IsUnique c (conns_at k m) (conns_at-IsUnique k m u)) u)
    | inr e ↦ rw e u
  ]

  left_rooms-IsMap : (c : Conn) (k : K) (m : List (Entry K)) → IsMap m → IsMap (left_rooms c k m)
  unfolding left_rooms
  left_rooms-IsMap c k m u = elim (Bool-cases (is_last c k m)) [
    | inl e ↦ rw e (delete-IsMap k (kept_rooms c k m) (kept-IsMap c k m u))
    | inr e ↦ rw e (kept-IsMap c k m u)
  ]

  count-joined :
      (c : Conn) (k : K) (m : List (Entry K))
      → holds c (conns_at k m) ≡ false
      → length (all_conns (put k (insert c (conns_at k m)) m)) ≡ length (all_conns m) + 1
  count-joined c k m h =
      omega (arith, length-put k (insert c (conns_at k m)) m, length-insert c (conns_at k m) h)

  count-kept :
      (c : Conn) (k : K) (m : List (Entry K))
      → IsMap m
      → holds c (conns_at k m) ≡ true
      → length (all_conns (kept_rooms c k m)) + 1 ≡ length (all_conns m)
  unfolding holds any
  count-kept c k m u h = elim (Bool-cases (has_key k m)) [
    | inl e ↦ ground (
      arith,
      length-put k (without c (conns_at k m)) m,
      length-without c (conns_at k m) (conns_at-IsUnique k m u) h,
    )
    | inr e ↦ ground (arith, conns_at_missing k m e)
  ]

  count-left :
      (c : Conn) (k : K) (m : List (Entry K))
      → IsMap m
      → holds c (conns_at k m) ≡ true
      → length (all_conns (left_rooms c k m)) + 1 ≡ length (all_conns m)
  unfolding left_rooms
  count-left c k m u h = elim (Bool-cases (is_last c k m)) [
    | inl e ↦
        ground
          (arith, count-kept c k m u h, length-delete k (kept_rooms c k m) (kept-IsMap c k m u))
    | inr e ↦ ground (arith, count-kept c k m u h)
  ]

  -- The calls of Inc and of Dec on ActiveWebsocketConnections after an operation.
  unfoldable counted : Op K → HubState K → ℕ × ℕ
  counted (register_op accepted c k) h = (
    if h.closed then h.metrics.connections_inc else h.metrics.connections_inc + 1,
    h.metrics.connections_dec,
  )
  counted (unregister_op c k) h = (h.metrics.connections_inc, h.metrics.connections_dec + 1)
  counted shutdown_op h =
      (h.metrics.connections_inc, h.metrics.connections_dec + length (all_conns h.rooms))

  abbrev IsCounting : (Op K → HubState K → Bool × HubState K) → Type 0
  IsCounting step =
      (op : Op K) (h : HubState K)
      → ((step op h).1.metrics.connections_inc, (step op h).1.metrics.connections_dec)
        ≡ counted op h

  plain-IsMap : (op : Op K) (h : HubState K) → IsMap h.rooms → IsMap (plain op h).1.rooms
  unfolding plain IsMap
  plain-IsMap (register_op accepted c k) h u = elim (Bool-cases h.closed) [
    | inl e ↦ rw e u
    | inr e ↦ rw e (
        put-IsMap k (insert c (conns_at k h.rooms)) h.rooms
          (insert-IsUnique c (conns_at k h.rooms) (conns_at-IsUnique k h.rooms u)) u)
  ]
  plain-IsMap (unregister_op c k) h u = left_rooms-IsMap c k h.rooms u
  plain-IsMap shutdown_op h u = tt

  plain-count :
      (op : Op K) (h : HubState K)
      → IsProper op h
      → IsMap h.rooms
      → h.metrics.connections_inc ≡ h.metrics.connections_dec + length (all_conns h.rooms)
      → (counted op h).0 ≡ (counted op h).1 + length (all_conns (plain op (core h)).1.rooms)
  unfolding core plain counted IsProper all_conns
  plain-count (register_op accepted c k) h p u e = ground (arith, count-joined c k h.rooms p)
  plain-count (unregister_op c k) h p u e = omega (arith, count-left c k h.rooms u p)
  plain-count shutdown_op h p u e = omega (arith, e)

  module _ (step : Op K → HubState K → Bool × HubState K) (p : IsPlain step)
      (n : IsCounting step) where
    History-IsMap : (h : HubState K) → History step h → IsMap h.rooms
    unfolding IsMap core
    History-IsMap _ start = tt
    History-IsMap _ (after h op r q) =
        subst (λ v. IsMap v.1.rooms) (sym (p op h)) (plain-IsMap op (core h) (History-IsMap h r))

    History-count :
        (h : HubState K)
        → History step h
        → h.metrics.connections_inc ≡ h.metrics.connections_dec + length (all_conns h.rooms)
    unfolding all_conns core
    History-count _ start = refl
    History-count _ (after h op r q) =
        let rooms = ap (λ v. length (all_conns v.1.rooms)) (p op h) in
        let count = plain-count op h q (History-IsMap h r) (History-count h r) in
        omega (arith, rooms, count, ap (λ v. v.0) (n op h), ap (λ v. v.1) (n op h))

hub_step-IsCounting : IsCounting hub_step
unfolding hub_step counted register unregister shutdown subscribe_redis close_sub
hub_step-IsCounting (register_op accepted c k) h = ground arith
hub_step-IsCounting (unregister_op c k) h = ground arith
hub_step-IsCounting shutdown_op h = refl

room_step-IsCounting : IsCounting room_step
unfolding room_step counted room_register room_unregister room_shutdown subscribe_redis close_sub
    close_room count_room
room_step-IsCounting (register_op accepted c k) h = ground arith
room_step-IsCounting (unregister_op c k) h = ground arith
room_step-IsCounting shutdown_op h = refl

-- From the start of the hub of files and of the hub of rooms, after any history of operations in
-- which a connection registers for a key only while it is not registered for it, and unregisters
-- only while it is, what the hub added to the gauge of the connections is the number of
-- connections registered.
pub History-all_conns :
    (h : HubState ChannelKey) (r : HubState ℕ)
    → History hub_step h
    → History room_step r
    → (h.metrics.connections_inc ≡ h.metrics.connections_dec + length (all_conns h.rooms))
      × (r.metrics.connections_inc ≡ r.metrics.connections_dec + length (all_conns r.rooms))
History-all_conns h r s t = (
  History-count hub_step hub_step-IsPlain hub_step-IsCounting h s,
  History-count room_step room_step-IsPlain room_step-IsCounting r t,
)
