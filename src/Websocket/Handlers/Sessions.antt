-- ===== src/Websocket/Handlers/Sessions.antt =====
-- Who gets a connection of internal/websocket/handler.go and room_handler.go, and what a viewer's
-- connection can do.
use pairly.Prelude.{
  ℕ, ◌≡◌, refl, ap, ◌∙◌, inl, inr, Bool, true, false, Option, none, some, List, [], ◌∷◌, arith,
  Comparable, string_eq, nat_eq, Bool-cases, ==_refl,
}
use pairly.Postgres.Schema.{Role, viewer, role_eq}
use pairly.Postgres.Ownership.Roles.{role_in}
use pairly.Mongo.Documents.{Bytes}
use pairly.World.State.{World}
use pairly.World.Action.{Result, ok, stop, hangs}
use pairly.Rooms.Access.Refused.{member_role_found}
use pairly.Executor.Job.{Executor}
use pairly.Websocket.Registry.{Conn}
use pairly.Websocket.HubState.{HubState}
use pairly.Websocket.HubState.Abstract.{Op, IsFaithful, register_op, unregister_op, view, promised}
use pairly.Websocket.HubState.Plain.{IsPlain-IsFaithful}
use pairly.Websocket.Refinement.{hub_step, room_step, hub_step-IsPlain, room_step-IsPlain}
use pairly.Websocket.Hub.{Hub, ChannelKey, channel_key_eq, register, unregister}
use pairly.Websocket.RoomHub.{RoomHub, room_register}
use pairly.Websocket.Handlers.{
  joined, role_of_claims, join_hub, serve_ws, serve_room, ws_message, ws_loop, room_message,
  room_loop, RoomMessage, handle_run_file,
}

role_of_claims_found :
    (room : ℕ) (claims : Option ℕ) (w : World) (role : Role)
    → (role_of_claims room claims w).0 ≡ ok role
    → (user : ℕ) × (claims ≡ some user) × (role_in w.db room user ≡ some role)
unfolding role_of_claims
role_of_claims_found room none w role e = absurd (cc)
role_of_claims_found room (some user) w role e =
    (user, refl, member_role_found "not a member of this room" room user w role e)

join_hub_joined :
    {H : Type 0} (upgraded : Bool) (enter : H → Bool × H) (r : Result Role) (h : H) (role : Role)
    → (join_hub upgraded enter r h).0 ≡ joined role
    → (r ≡ ok role)
      × (upgraded ≡ true)
      × ((enter h).0 ≡ true)
      × ((join_hub upgraded enter r h).1 ≡ (enter h).1)
unfolding join_hub
join_hub_joined upgraded enter (stop x) h role e = absurd (cc)
join_hub_joined upgraded enter hangs h role e = absurd (cc)
join_hub_joined upgraded enter (ok x) h role e = ground arith

-- A hub that answers true was open, and holds the connection.
registered :
    {K : Type 0} ⦃eq : Comparable K⦄ (step : Op K → HubState K → Bool × HubState K)
    → IsFaithful step
    → (accepted : Bool) (c : Conn) (k : K) (h : HubState K)
    → (step (register_op accepted c k) h).0 ≡ true
    → (h.closed ≡ false) × ((view (step (register_op accepted c k) h).1).members k c ≡ true)
unfolding promised view
registered ⦃eq⦄ step f accepted c k h e = elim (Bool-cases h.closed) [
  | inl q ↦ absurd (ground (arith, ap (λ v. v.0) (f (register_op accepted c k) h)))
  | inr q ↦ (
    q,
    ap (λ v. v.1.members k c) (f (register_op accepted c k) h)
        ∙ ground (arith, q, eq.same_iff k k, ==_refl c),
  )
]

-- ServeWS reaches its loop only for a user with a token who is a member of the room, on an upgraded
-- connection, with the member's role, and the hub was open and then holds the connection under the
-- room and the file; whatever query fails.
pub serve_ws-joined :
    (claims : Option ℕ) (upgraded accepted : Bool) (conn : Conn) (key : ChannelKey) (w : World)
    (hub : Hub) (role : Role)
    → (serve_ws claims upgraded accepted conn key w hub).0 ≡ joined role
    → (user : ℕ) × (claims ≡ some user)
      × (role_in w.db key.room_id user ≡ some role)
      × (upgraded ≡ true)
      × (hub.closed ≡ false)
      × ((view (serve_ws claims upgraded accepted conn key w hub).2).members key conn ≡ true)
unfolding serve_ws hub_step
serve_ws-joined claims upgraded accepted conn key w hub role e =
    let (r, up, entered, there) =
      join_hub_joined upgraded (register accepted conn key) (role_of_claims key.room_id claims w).0
        hub role e in
    let (user, c, found) = role_of_claims_found key.room_id claims w role r in
    let (shut, held) =
      registered hub_step (IsPlain-IsFaithful hub_step hub_step-IsPlain) accepted conn key hub
        entered in
    (user, c, found, up, shut, ap (λ h. (view h).members key conn) there ∙ held)

-- ServeRoom reaches its loop only for a user with a token who is a member of the room, on an
-- upgraded connection, with the member's role, and the hub was open and then holds the connection
-- under the room; whatever query fails.
pub serve_room-joined :
    (claims : Option ℕ) (upgraded accepted : Bool) (conn : Conn) (room : ℕ) (w : World)
    (hub : RoomHub) (role : Role)
    → (serve_room claims upgraded accepted conn room w hub).0 ≡ joined role
    → (user : ℕ) × (claims ≡ some user)
      × (role_in w.db room user ≡ some role)
      × (upgraded ≡ true)
      × (hub.closed ≡ false)
      × ((view (serve_room claims upgraded accepted conn room w hub).2).members room conn ≡ true)
unfolding serve_room room_step
serve_room-joined claims upgraded accepted conn room w hub role e =
    let (r, up, entered, there) =
      join_hub_joined upgraded (room_register accepted conn room) (role_of_claims room claims w).0
        hub role e in
    let (user, c, found) = role_of_claims_found room claims w role r in
    let (shut, held) =
      registered room_step (IsPlain-IsFaithful room_step room_step-IsPlain) accepted conn room hub
        entered in
    (user, c, found, up, shut, ap (λ h. (view h).members room conn) there ∙ held)

viewer_message :
    (user room : ℕ) (m : RoomMessage) (e : Executor) (hub : RoomHub)
    → ((room_message viewer user room m e hub).0.running ≡ e.running)
      × ((room_message viewer user room m e hub).0.locks ≡ e.locks)
unfolding room_message handle_run_file
viewer_message user room m e hub = ground arith

viewer_room_loop :
    (conn : Conn) (user room : ℕ) (ms : List RoomMessage) (e : Executor) (hub : RoomHub)
    → ((room_loop conn viewer user room ms e hub).0.running ≡ e.running)
      × ((room_loop conn viewer user room ms e hub).0.locks ≡ e.locks)
unfolding room_loop
viewer_room_loop conn user room [] e hub = (refl, refl)
viewer_room_loop conn user room (m ∷ ms) e hub =
    let (e', hub') = room_message viewer user room m e hub in
    let (running, locks) = viewer_room_loop conn user room ms e' hub' in
    let (same, kept) = viewer_message user room m e hub in (running ∙ same, locks ∙ kept)

viewer_ws_loop :
    (conn : Conn) (key : ChannelKey) (ms : List Bytes) (w : World) (hub : Hub)
    → ws_loop conn viewer key ms w hub ≡ (w, unregister conn key hub)
unfolding ws_loop ws_message
viewer_ws_loop conn key [] w hub = refl
viewer_ws_loop conn key (m ∷ ms) w hub = viewer_ws_loop conn key ms w hub

room_loop_left :
    (conn : Conn) (role : Role) (user room : ℕ) (ms : List RoomMessage) (e : Executor)
    (hub : RoomHub)
    → (view (room_loop conn role user room ms e hub).1).members room conn ≡ false
unfolding room_loop room_step promised
room_loop_left conn role user room [] e hub =
    ap (λ v. v.1.members room conn)
      (IsPlain-IsFaithful room_step room_step-IsPlain (unregister_op conn room) hub)
    ∙ ground (arith, ==_refl conn, ==_refl room)
room_loop_left conn role user room (m ∷ ms) e hub =
    let (e', hub') = room_message role user room m e hub in
    room_loop_left conn role user room ms e' hub'

-- Whatever messages a viewer sends on the connection of a file, nothing is published and the
-- world is as before; whatever a viewer sends on the connection of a room, no execution is
-- started and no lock is taken or released. Both connections end unregistered.
pub viewer_loops :
    (conn : Conn) (key : ChannelKey) (user : ℕ) (ms : List Bytes) (rms : List RoomMessage)
    (w : World) (hub : Hub) (e : Executor) (room_hub : RoomHub)
    → let r = room_loop conn viewer user key.room_id rms e room_hub in
      (ws_loop conn viewer key ms w hub ≡ (w, unregister conn key hub))
      × (r.0.running ≡ e.running)
      × (r.0.locks ≡ e.locks)
      × ((view r.1).members key.room_id conn ≡ false)
viewer_loops conn key user ms rms w hub e room_hub =
    let (running, locks) = viewer_room_loop conn user key.room_id rms e room_hub in
    (
      viewer_ws_loop conn key ms w hub,
      running,
      locks,
      room_loop_left conn viewer user key.room_id rms e room_hub,
    )
