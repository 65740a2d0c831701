-- ===== src/Websocket/Delivery.antt =====
-- What a message on a channel of Redis reaches, over all the servers whose hubs subscribed.
use pairly.Prelude.{
  ℕ, ◌≡◌, refl, ap, ◌∙◌, Bool, false, ◌&&◌, ◌||◌, List, [], ◌∷◌, ◌++◌, arith, Comparable, string_eq,
  nat_eq, any, All,
}
use pairly.Websocket.Registry.{Conn, holds, conns_at}
use pairly.Websocket.HubState.{HubState, has_sub, new_hub, receivers}
use pairly.Websocket.HubState.Abstract.{Op, view, promised, run_all}
use pairly.Websocket.HubState.Plain.{IsPlain, IsPlain-IsFaithful}
use pairly.Websocket.Hub.{ChannelKey, channel_key_eq}
use pairly.Websocket.Refinement.{
  hub_step, room_step, notify_step, hub_step-IsPlain, room_step-IsPlain, notify_step-IsPlain,
  run_all-view,
}
use pairly.Websocket.Subscriptions.{has_no_conns, IsAccepted, run_all-IsUsed, run_all-IsServed}

pub holds-append : (c : Conn) (xs ys : List Conn) → holds c (xs ++ ys) ≡ (holds c xs || holds c ys)
unfolding holds any
holds-append c [] ys = refl
holds-append c (x ∷ xs) ys = ground (arith, holds-append c xs ys)

module _ {K : Type 0} ⦃eq : Comparable K⦄ where
  -- Redis hands a published message to every open subscription of its channel.
  unfoldable pub fan_out : K → List (HubState K) → List Conn
  fan_out k [] = []
  fan_out k (h ∷ hubs) = receivers k h ++ fan_out k hubs

  -- The hubs of several servers, each after its own operations.
  unfoldable pub servers :
      (Op K → HubState K → Bool × HubState K) → List (List (Op K)) → List (HubState K)
  servers step [] = []
  servers step (ops ∷ rest) = (run_all step ops new_hub).1 ∷ servers step rest

  -- Is the connection in the promised set of one of the servers?
  unfoldable pub is_promised : K → Conn → List (List (Op K)) → Bool
  is_promised k c [] = false
  is_promised k c (ops ∷ rest) =
      (run_all promised ops (view new_hub)).1.members k c || is_promised k c rest

  fan_out-promised :
      (step : Op K → HubState K → Bool × HubState K)
      → IsPlain step
      → (pods : List (List (Op K))) → All (All IsAccepted) pods
      → (k : K) (c : Conn) → holds c (fan_out k (servers step pods)) ≡ is_promised k c pods
  unfolding fan_out servers is_promised holds any
  fan_out-promised step p [] a k c = refl
  fan_out-promised step p (ops ∷ pods) a k c =
      let here =
        run_all-IsServed step p ops a.0 k c
        ∙ ap (λ v. v.1.members k c) (run_all-view step (IsPlain-IsFaithful step p) ops new_hub) in
      let there = fan_out-promised step p pods a.1 k c in
      holds-append c (receivers k (run_all step ops new_hub).1) (fan_out k (servers step pods))
      ∙ (λ i. here i || there i)

  no_leak :
      (step : Op K → HubState K → Bool × HubState K)
      → IsPlain step
      → (ops : List (Op K)) (k : K)
      → (has_sub k (run_all step ops new_hub).1.subs
          && has_no_conns (conns_at k (run_all step ops new_hub).1.rooms))
        ≡ false
  no_leak step p ops k = ground (arith, run_all-IsUsed step p ops k)

-- On servers whose hubs went through any operations from their start, where Redis accepted every
-- subscription, a message on the channel of a file, of a room or of a user is written to exactly
-- the connections that one of the servers' sets holds for it: those that registered for it on an
-- open hub and did not unregister since.
pub fan_out-is_promised :
    (pods : List (List (Op ChannelKey))) (room_pods notify_pods : List (List (Op ℕ)))
    → All (All IsAccepted) pods
    → All (All IsAccepted) room_pods
    → All (All IsAccepted) notify_pods
    → (k : ChannelKey) (room user : ℕ) (c : Conn)
    → (holds c (fan_out k (servers hub_step pods)) ≡ is_promised k c pods)
      × (holds c (fan_out room (servers room_step room_pods)) ≡ is_promised room c room_pods)
      × (holds c (fan_out user (servers notify_step notify_pods)) ≡ is_promised user c notify_pods)
fan_out-is_promised pods room_pods notify_pods a r n k room user c = (
  fan_out-promised hub_step hub_step-IsPlain pods a k c,
  fan_out-promised room_step room_step-IsPlain room_pods r room c,
  fan_out-promised notify_step notify_step-IsPlain notify_pods n user c,
)

-- After any operations of the three hubs from their start, whatever subscriptions Redis accepted,
-- none has a subscription for a key without connections.
pub run_all-has_sub :
    (ops : List (Op ChannelKey)) (room_ops notify_ops : List (Op ℕ)) (k : ChannelKey)
    (room user : ℕ)
    → ((has_sub k (run_all hub_step ops new_hub).1.subs
          && has_no_conns (conns_at k (run_all hub_step ops new_hub).1.rooms))
        ≡ false)
      × ((has_sub room (run_all room_step room_ops new_hub).1.subs
            && has_no_conns (conns_at room (run_all room_step room_ops new_hub).1.rooms))
          ≡ false)
      × ((has_sub user (run_all notify_step notify_ops new_hub).1.subs
            && has_no_conns (conns_at user (run_all notify_step notify_ops new_hub).1.rooms))
          ≡ false)
run_all-has_sub ops room_ops notify_ops k room user = (
  no_leak hub_step hub_step-IsPlain ops k,
  no_leak room_step room_step-IsPlain room_ops room,
  no_leak notify_step notify_step-IsPlain notify_ops user,
)
