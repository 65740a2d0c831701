-- ===== src/Websocket/Gauges/Rooms.antt =====
-- The gauge of active rooms in backend/internal/websocket/room_hub.go.
use pairly.Prelude.{
  Bool, false, All-keep, ℕ, ◌+◌, ◌≡◌, refl, sym, ap, subst, ◌∙◌, inl, inr, true, not, ◌&&◌, List,
  [], ◌∷◌, arith, if◌then◌else◌, Comparable, string_eq, nat_eq, Bool-cases, length, any, keep, All,
  ◌==◌,
}
use pairly.Websocket.Registry.{Conn, Entry, insert, without, has_key, conns_at, put, delete}
use pairly.Websocket.Registry.Views.{has_key-put, has_key-delete}
use pairly.Websocket.Registry.Counts.{IsMap, delete_missing}
use pairly.Websocket.HubState.{new_hub, has_sub, subscribe_redis, close_sub}
use pairly.Websocket.HubState.Abstract.{Op, register_op, unregister_op, shutdown_op, run_all}
use pairly.Websocket.HubState.Plain.{
  conns_at-kept, kept_rooms, is_last, left_rooms, left_subs, joined_subs, plain, core,
}
use pairly.Websocket.RoomHub.{
  RoomHub, room_register, room_unregister, room_shutdown, count_room, close_room,
}
use pairly.Websocket.Refinement.{room_step, room_step-IsPlain}
use pairly.Websocket.Subscriptions.{IsAccepted, has_no_conns, has_no_conns-insert}
use pairly.Websocket.Gauges.{kept-IsMap, plain-IsMap}

module _ {K : Type 0} ⦃eq : Comparable K⦄ where
  size-put :
      (k : K) (cs : List Conn) (m : List (Entry K))
      → length (put k cs m) ≡ (if has_key k m then length m else length m + 1)
  unfolding put has_key any
  size-put k cs [] = refl
  size-put k cs (e ∷ m) = ground (arith, size-put k cs m)

  size-delete :
      (k : K) (m : List (Entry K))
      → IsMap m
      → has_key k m ≡ true
      → length (delete k m) + 1 ≡ length m
  unfolding delete keep has_key any IsMap
  size-delete k [] u h = absurd (cc)
  size-delete k (e ∷ m) u h = elim (Bool-cases (e.key == k)) [
    | inl q ↦
        let gone = ap (λ j. has_key j m) ((eq.same_iff e.key k).0 q) in
        rw (q, delete_missing k m (sym gone ∙ u.0)) (omega arith)
    | inr q ↦ ground (arith, size-delete k m u.2)
  ]

  has_sub-close :
      (k j : K) (subs : List K)
      → has_sub j (keep (λ i. not (i == k)) subs) ≡ (not (k == j) && has_sub j subs)
  unfolding has_sub any keep
  has_sub-close k j [] = ground arith
  has_sub-close k j (s ∷ subs) =
      ground (arith, has_sub-close k j subs, eq.same_iff s k, eq.same_iff s j, eq.same_iff k j)

  -- The subscriptions are those of the keys of the map.
  abbrev HasSubs : List (Entry K) → List K → Type 0
  HasSubs m subs = (j : K) → has_key j m ≡ has_sub j subs

  joined-HasSubs :
      (k : K) (cs : List Conn) (m : List (Entry K)) (subs : List K)
      → HasSubs m subs
      → HasSubs (put k cs m) (joined_subs true k subs)
  unfolding joined_subs has_sub any
  joined-HasSubs k cs m subs s j = elim (Bool-cases (has_sub k subs)) [
    | inl e ↦ ground (arith, s j, s k, has_key-put k j cs m, eq.same_iff k j)
    | inr e ↦ ground (arith, s j, has_key-put k j cs m)
  ]

  has_key-kept :
      (c : Conn) (k j : K) (m : List (Entry K)) → has_key j (kept_rooms c k m) ≡ has_key j m
  has_key-kept c k j m = elim (Bool-cases (has_key k m)) [
    | inl e ↦ ground (arith, has_key-put k j (without c (conns_at k m)) m, eq.same_iff k j)
    | inr e ↦ rw e refl
  ]

  left-HasSubs :
      (c : Conn) (k : K) (m : List (Entry K)) (subs : List K)
      → HasSubs m subs
      → HasSubs (left_rooms c k m) (left_subs c k m subs)
  unfolding left_rooms left_subs
  left-HasSubs c k m subs s j = elim (Bool-cases (is_last c k m)) [
    | inl e ↦ rw e (
        ground (
          arith,
          s j,
          s k,
          has_key-delete k j (kept_rooms c k m),
          has_key-kept c k j m,
          has_sub-close k j subs,
          eq.same_iff k j,
        ))
    | inr e ↦ rw e (has_key-kept c k j m ∙ s j)
  ]

  size-kept : (c : Conn) (k : K) (m : List (Entry K)) → length (kept_rooms c k m) ≡ length m
  size-kept c k m = elim (Bool-cases (has_key k m)) [
    | inl e ↦ ground (arith, size-put k (without c (conns_at k m)) m)
    | inr e ↦ rw e refl
  ]

  size-left :
      (c : Conn) (k : K) (m : List (Entry K))
      → IsMap m
      → length (left_rooms c k m) + (if is_last c k m && has_key k m then 1 else 0) ≡ length m
  unfolding left_rooms
  size-left c k m u = elim (Bool-cases (is_last c k m)) [
    | inl e ↦ elim (Bool-cases (has_key k m)) [
      | inl f ↦ rw (e) (
          ground (
            arith,
            size-delete k (kept_rooms c k m) (kept-IsMap c k m u) (has_key-kept c k k m ∙ f),
            size-kept c k m,
          ))
      | inr f ↦ rw (e) (
          ground (
            arith,
            delete_missing k (kept_rooms c k m) (has_key-kept c k k m ∙ f),
            size-kept c k m,
          ))
    ]
    | inr e ↦ rw e (ground (arith, size-kept c k m))
  ]

module _ {K : Type 0} ⦃eq : Comparable K⦄ where
  abbrev pub has_conns : Entry K → Bool
  has_conns e = not (has_no_conns e.conns)

  abbrev IsPeopled : List (Entry K) → Type 0
  IsPeopled m = All (λ e. has_conns e ≡ true) m

  put-IsPeopled :
      (k : K) (cs : List Conn) (m : List (Entry K))
      → has_no_conns cs ≡ false
      → IsPeopled m
      → IsPeopled (put k cs m)
  unfolding put
  put-IsPeopled k cs [] n a = (ground arith, tt)
  put-IsPeopled k cs (e ∷ m) n a = elim (Bool-cases (e.key == k)) [
    | inl q ↦ rw q (ground arith, a.1)
    | inr q ↦ rw q (a.0, put-IsPeopled k cs m n a.1)
  ]

  -- Whatever the map has for a key is taken away with it.
  delete-put : (k : K) (cs : List Conn) (m : List (Entry K)) → delete k (put k cs m) ≡ delete k m
  unfolding delete put keep
  delete-put k cs [] = ground (arith, eq.same_iff k k)
  delete-put k cs (e ∷ m) = ground (arith, delete-put k cs m)

  delete-IsPeopled : (k : K) (m : List (Entry K)) → IsPeopled m → IsPeopled (delete k m)
  unfolding delete
  delete-IsPeopled k m a = All-keep (λ e. has_conns e ≡ true) _ m a

  kept-deleted : (c : Conn) (k : K) (m : List (Entry K)) → delete k (kept_rooms c k m) ≡ delete k m
  kept-deleted c k m = elim (Bool-cases (has_key k m)) [
    | inl e ↦ rw e (delete-put k (without c (conns_at k m)) m)
    | inr e ↦ rw e refl
  ]

  kept-IsPeopled :
      (c : Conn) (k : K) (m : List (Entry K))
      → is_last c k m ≡ false
      → IsPeopled m
      → IsPeopled (kept_rooms c k m)
  kept-IsPeopled c k m l a = elim (Bool-cases (has_key k m)) [
    | inl e ↦
        let some_left = ap has_no_conns (sym (conns_at-kept c k m)) ∙ l in
        rw e (put-IsPeopled k (without c (conns_at k m)) m some_left a)
    | inr e ↦ rw e a
  ]

  left-IsPeopled :
      (c : Conn) (k : K) (m : List (Entry K)) → IsPeopled m → IsPeopled (left_rooms c k m)
  unfolding left_rooms
  left-IsPeopled c k m a = elim (Bool-cases (is_last c k m)) [
    | inl e ↦ rw (e, kept-deleted c k m) (delete-IsPeopled k m a)
    | inr e ↦ rw e (kept-IsPeopled c k m e a)
  ]

  all_peopled : (m : List (Entry K)) → IsPeopled m → length (keep has_conns m) ≡ length m
  unfolding keep
  all_peopled [] a = refl
  all_peopled (e ∷ m) a = ground (arith, all_peopled m a.1)

-- The calls of Inc and of Dec on ActiveRoomsTotal after an operation.
room_counted : Op ℕ → RoomHub → ℕ × ℕ
room_counted (register_op accepted c k) h = (
  if not h.closed && not (has_key k h.rooms) then h.metrics.rooms_inc + 1 else h.metrics.rooms_inc,
  h.metrics.rooms_dec,
)
room_counted (unregister_op c k) h = (
  h.metrics.rooms_inc,
  h.metrics.rooms_dec + (if is_last c k h.rooms && has_sub k h.subs then 1 else 0),
)
room_counted shutdown_op h = (h.metrics.rooms_inc, h.metrics.rooms_dec + length h.rooms)

room_step_counted :
    (op : Op ℕ) (h : RoomHub)
    → ((room_step op h).1.metrics.rooms_inc, (room_step op h).1.metrics.rooms_dec)
      ≡ room_counted op h
unfolding room_step room_counted room_register room_unregister room_shutdown subscribe_redis
    close_sub close_room count_room
room_step_counted (register_op accepted c k) h = ground arith
room_step_counted (unregister_op c k) h = ground arith
room_step_counted shutdown_op h = refl

-- Every room of the hub has a subscription and a connection, and no room is twice.
abbrev IsTracked : RoomHub → Type 0
IsTracked h = IsMap h.rooms × HasSubs h.rooms h.subs × IsPeopled h.rooms

plain-IsPeopled : (op : Op ℕ) (h : RoomHub) → IsPeopled h.rooms → IsPeopled (plain op h).1.rooms
unfolding plain
plain-IsPeopled (register_op accepted c k) h a = elim (Bool-cases h.closed) [
  | inl e ↦ rw e a
  | inr e ↦ rw e (
      put-IsPeopled k (insert c (conns_at k h.rooms)) h.rooms
        (has_no_conns-insert c (conns_at k h.rooms)) a)
]
plain-IsPeopled (unregister_op c k) h a = left-IsPeopled c k h.rooms a
plain-IsPeopled shutdown_op h a = tt

plain-HasSubs :
    (op : Op ℕ) (h : RoomHub)
    → IsAccepted op
    → HasSubs h.rooms h.subs
    → HasSubs (plain op h).1.rooms (plain op h).1.subs
unfolding plain IsAccepted has_key has_sub any
plain-HasSubs (register_op accepted c k) h a s = elim (Bool-cases h.closed) [
  | inl e ↦ rw e s
  | inr e ↦ rw (e, a) (joined-HasSubs k (insert c (conns_at k h.rooms)) h.rooms h.subs s)
]
plain-HasSubs (unregister_op c k) h a s = left-HasSubs c k h.rooms h.subs s
plain-HasSubs shutdown_op h a s = λ j. refl

step-IsTracked :
    (op : Op ℕ) (h : RoomHub) → IsAccepted op → IsTracked h → IsTracked (room_step op h).1
unfolding core
step-IsTracked op h a t =
    subst (λ v. IsMap v.1.rooms × HasSubs v.1.rooms v.1.subs × IsPeopled v.1.rooms)
      (sym (room_step-IsPlain op h))
      (
        plain-IsMap op (core h) t.0,
        plain-HasSubs op (core h) a t.1,
        plain-IsPeopled op (core h) t.2,
      )

plain_size :
    (op : Op ℕ) (h : RoomHub)
    → IsTracked h
    → h.metrics.rooms_inc ≡ h.metrics.rooms_dec + length h.rooms
    → (room_counted op h).0 ≡ (room_counted op h).1 + length (plain op (core h)).1.rooms
unfolding core plain room_counted
plain_size (register_op accepted c k) h t e =
    ground (arith, size-put k (insert c (conns_at k h.rooms)) h.rooms)
plain_size (unregister_op c k) h t e = ground (arith, size-left c k h.rooms t.0, t.1 k)
plain_size shutdown_op h t e = omega (arith, e)

step_size :
    (op : Op ℕ) (h : RoomHub)
    → IsTracked h
    → h.metrics.rooms_inc ≡ h.metrics.rooms_dec + length h.rooms
    → (room_step op h).1.metrics.rooms_inc
      ≡ (room_step op h).1.metrics.rooms_dec + length (room_step op h).1.rooms
unfolding core
step_size op h t e =
    let rooms = ap (λ v. length v.1.rooms) (room_step-IsPlain op h) in
    omega (
      arith,
      rooms,
      plain_size op h t e,
      ap (λ v. v.0) (room_step_counted op h),
      ap (λ v. v.1) (room_step_counted op h),
    )

run_all_size :
    (ops : List (Op ℕ)) (h : RoomHub)
    → All IsAccepted ops
    → IsTracked h
    → h.metrics.rooms_inc ≡ h.metrics.rooms_dec + length h.rooms
    → IsTracked (run_all room_step ops h).1
      × ((run_all room_step ops h).1.metrics.rooms_inc
          ≡ (run_all room_step ops h).1.metrics.rooms_dec
            + length (run_all room_step ops h).1.rooms)
unfolding run_all
run_all_size [] h a t e = (t, e)
run_all_size (op ∷ ops) h a t e =
    run_all_size ops (room_step op h).1 a.1 (step-IsTracked op h a.0 t) (step_size op h t e)

-- Where Redis accepts every subscription, after any operations of the room hub from its start, its
-- map has no room twice, and the calls of Inc on the gauge of active rooms are as many as the calls
-- of Dec and the rooms of the map that have a connection: connections that register twice, or
-- unregister without being registered, included.
pub run_all-active_rooms :
    (ops : List (Op ℕ))
    → All IsAccepted ops
    → let h = (run_all room_step ops new_hub).1 in
      IsMap h.rooms × (h.metrics.rooms_inc ≡ h.metrics.rooms_dec + length (keep has_conns h.rooms))
unfolding IsMap has_key has_sub any
run_all-active_rooms ops a =
    let (t, e) = run_all_size ops new_hub a (tt, λ j. refl, tt) refl in
    (
      t.0,
      e
          ∙ ap (λ n. (run_all room_step ops new_hub).1.metrics.rooms_dec + n)
              (sym (all_peopled _ t.2)),
    )
