-- ===== src/Websocket/Refinement.antt =====
-- internal/websocket/hub.go, room_hub.go and notify_hub.go against the set that they promise.
use pairly.Prelude.{
  ℕ, ◌≡◌, refl, ap, ◌∙◌, Bool, true, List, [], ◌∷◌, arith, Comparable, string_eq, nat_eq,
}
use pairly.Websocket.HubState.{HubState, subscribe_redis, close_sub}
use pairly.Websocket.HubState.Abstract.{
  Op, register_op, unregister_op, shutdown_op, view, promised, IsFaithful, run_all,
}
use pairly.Websocket.HubState.Plain.{
  core, plain, IsPlain, IsPlain-IsFaithful, left_rooms, left_subs, joined_subs,
}
use pairly.Websocket.Hub.{ChannelKey, channel_key_eq, register, unregister, shutdown}
use pairly.Websocket.RoomHub.{room_register, room_unregister, room_shutdown, count_room, close_room}
use pairly.Websocket.NotifyHub.{notify_register, notify_unregister, notify_shutdown}

unfoldable pub hub_step : Op ChannelKey → HubState ChannelKey → Bool × HubState ChannelKey
hub_step (register_op accepted c k) h = register accepted c k h
hub_step (unregister_op c k) h = (true, unregister c k h)
hub_step shutdown_op h = (true, (shutdown h).1)

unfoldable pub room_step : Op ℕ → HubState ℕ → Bool × HubState ℕ
room_step (register_op accepted c k) h = room_register accepted c k h
room_step (unregister_op c k) h = (true, room_unregister c k h)
room_step shutdown_op h = (true, (room_shutdown h).1)

unfoldable pub notify_step : Op ℕ → HubState ℕ → Bool × HubState ℕ
notify_step (register_op accepted c k) h = notify_register accepted c k h
notify_step (unregister_op c k) h = (true, notify_unregister c k h)
notify_step shutdown_op h = (true, (notify_shutdown h).1)

pub hub_step-IsPlain : IsPlain hub_step
unfolding hub_step plain core register unregister shutdown subscribe_redis close_sub left_rooms
    left_subs joined_subs
hub_step-IsPlain (register_op accepted c k) h = ground arith
hub_step-IsPlain (unregister_op c k) h = ground arith
hub_step-IsPlain shutdown_op h = refl

pub room_step-IsPlain : IsPlain room_step
unfolding room_step plain core room_register room_unregister room_shutdown subscribe_redis close_sub
    left_rooms left_subs joined_subs count_room close_room
room_step-IsPlain (register_op accepted c k) h = ground arith
room_step-IsPlain (unregister_op c k) h = ground arith
room_step-IsPlain shutdown_op h = refl

pub notify_step-IsPlain : IsPlain notify_step
unfolding notify_step plain core notify_register notify_unregister notify_shutdown subscribe_redis
    close_sub left_rooms left_subs joined_subs
notify_step-IsPlain (register_op accepted c k) h = ground arith
notify_step-IsPlain (unregister_op c k) h = ground arith
notify_step-IsPlain shutdown_op h = refl

pub run_all-view :
    {K : Type 0} ⦃eq : Comparable K⦄ (step : Op K → HubState K → Bool × HubState K)
    → IsFaithful step
    → (ops : List (Op K)) (h : HubState K)
    → ((run_all step ops h).0, view (run_all step ops h).1) ≡ run_all promised ops (view h)
unfolding run_all
run_all-view step f [] h = refl
run_all-view step f (op ∷ ops) h =
    ap (λ v. ((step op h).0 ∷ v.0, v.1)) (run_all-view step f ops (step op h).1)
    ∙ ap (λ q. (q.0 ∷ (run_all promised ops q.1).0, (run_all promised ops q.1).1)) (f op h)

-- After any operations of the three hubs, from any states, with any subscriptions accepted, the
-- answers and the registered connections are those of a set of pairs of a key and a connection
-- that Register adds to, Unregister takes from, and Shutdown empties and closes, after which
-- Register answers false.
pub run_all-promised :
    (ops : List (Op ChannelKey)) (room_ops notify_ops : List (Op ℕ)) (h : HubState ChannelKey)
    (r n : HubState ℕ)
    → (((run_all hub_step ops h).0, view (run_all hub_step ops h).1)
        ≡ run_all promised ops (view h))
      × (((run_all room_step room_ops r).0, view (run_all room_step room_ops r).1)
          ≡ run_all promised room_ops (view r))
      × (((run_all notify_step notify_ops n).0, view (run_all notify_step notify_ops n).1)
          ≡ run_all promised notify_ops (view n))
run_all-promised ops room_ops notify_ops h r n = (
  run_all-view hub_step (IsPlain-IsFaithful hub_step hub_step-IsPlain) ops h,
  run_all-view room_step (IsPlain-IsFaithful room_step room_step-IsPlain) room_ops r,
  run_all-view notify_step (IsPlain-IsFaithful notify_step notify_step-IsPlain) notify_ops n,
)
