-- ===== src/Websocket/HubState/Abstract.antt =====
-- What a hub promises: a set of pairs of a key and a connection, until it is closed.
use pairly.Prelude.{
  ◌≡◌, Bool, true, false, not, ◌&&◌, ◌||◌, List, [], ◌∷◌, if◌then◌else◌, Comparable, string_eq,
  nat_eq, ◌==◌,
}
use pairly.Websocket.Registry.{Conn, holds, conns_at}
use pairly.Websocket.HubState.{HubState}

pub data Op (K : Type 0) : Type 0 where
  register_op : Bool → Conn → K → Op K
  unregister_op : Conn → K → Op K
  shutdown_op : Op K

-- The set forgets the order in which the map and its sets are stored.
pub record Abstract (K : Type 0) : Type 0 where
  pub is_closed : Bool
  pub members : K → Conn → Bool

module _ {K : Type 0} ⦃eq : Comparable K⦄ where
  unfoldable pub view : HubState K → Abstract K
  view h = record { is_closed = h.closed; members = λ k c. holds c (conns_at k h.rooms) }

  -- The answer of the operation, and the set after it.
  unfoldable pub promised : Op K → Abstract K → Bool × Abstract K
  promised (register_op _ c k) a =
      if a.is_closed
      then (false, a)
      else (true, record a { members = λ j d. (k == j && c == d) || a.members j d })
  promised (unregister_op c k) a =
      (true, record a { members = λ j d. not (k == j && c == d) && a.members j d })
  promised shutdown_op a = (true, record { is_closed = true; members = λ j d. false })

  abbrev pub IsFaithful : (Op K → HubState K → Bool × HubState K) → Type 0
  IsFaithful step =
      (op : Op K) (h : HubState K) → ((step op h).0, view (step op h).1) ≡ promised op (view h)

-- The operations one after another: their answers, and the state after them.
module _ {O S : Type 0} (step : O → S → Bool × S) where
  unfoldable pub run_all : List O → S → List Bool × S
  run_all [] s = ([], s)
  run_all (o ∷ os) s = let (b, t) = step o s in let (bs, u) = run_all os t in (b ∷ bs, u)
