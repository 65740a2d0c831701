-- ===== src/Websocket/Subscriptions.antt =====
-- The subscriptions of the hubs against the connections that they serve.
use pairly.Prelude.{
  ◌≡◌, refl, sym, subst, inl, inr, Bool, true, false, not, ◌&&◌, ◌||◌, List, [], ◌∷◌, arith,
  Comparable, string_eq, nat_eq, Bool-cases, ◌==◌, length, keep, any, All,
}
use pairly.Websocket.Registry.{Conn, Entry, holds, insert, without, conns_at, put}
use pairly.Websocket.Registry.Views.{conns_at-put}
use pairly.Websocket.HubState.{HubState, has_sub, new_hub, receivers}
use pairly.Websocket.HubState.Abstract.{Op, register_op, unregister_op, shutdown_op, view, run_all}
use pairly.Websocket.HubState.Plain.{
  core, plain, IsPlain, is_last, left_rooms, left_subs, joined_subs, conns_at-left, conns_at-kept,
  conns_at_same,
}
use pairly.Websocket.Hub.{channel_key_eq}

abbrev pub has_no_conns : List Conn → Bool
has_no_conns cs = length cs == 0

-- Redis accepted the subscription of the operation, if it asked for one.
unfoldable pub IsAccepted : {K : Type 0} → Op K → Type 0
IsAccepted (register_op accepted c k) = accepted ≡ true
IsAccepted (unregister_op c k) = Unit
IsAccepted shutdown_op = Unit

has_no_conns-without :
    (c : Conn) (cs : List Conn) → has_no_conns cs ≡ true → has_no_conns (without c cs) ≡ true
unfolding without keep
has_no_conns-without c [] h = refl
has_no_conns-without c (d ∷ cs) h = ground arith

pub has_no_conns-insert : (c : Conn) (cs : List Conn) → has_no_conns (insert c cs) ≡ false
unfolding insert holds any
has_no_conns-insert c [] = refl
has_no_conns-insert c (d ∷ cs) = ground arith

All-any : {A : Type 0} (xs : List A) → All (λ x. Unit {0}) xs
All-any [] = tt
All-any (x ∷ xs) = (tt, All-any xs)

not_holds : (c : Conn) (cs : List Conn) → has_no_conns cs ≡ true → holds c cs ≡ false
unfolding holds any
not_holds c [] h = refl
not_holds c (d ∷ cs) h = ground arith

module _ {K : Type 0} ⦃eq : Comparable K⦄ where
  -- Every subscription has a connection; every key with a connection has a subscription.
  abbrev IsUsed : List (Entry K) → List K → Type 0
  IsUsed m subs = (k : K) → has_sub k subs ≡ true → has_no_conns (conns_at k m) ≡ false

  abbrev IsServed : List (Entry K) → List K → Type 0
  IsServed m subs = (k : K) → has_no_conns (conns_at k m) ≡ false → has_sub k subs ≡ true

  has_sub_same :
      (k j : K) (subs : List K) → has_sub k subs ≡ true → (k == j) ≡ true → has_sub j subs ≡ true
  has_sub_same k j subs h e = subst (λ x. has_sub x subs ≡ true) ((eq.same_iff k j).0 e) h

  has_sub-joined_subs :
      (accepted : Bool) (k j : K) (subs : List K)
      → has_sub j (joined_subs accepted k subs) ≡ (has_sub j subs || (accepted && k == j))
  unfolding has_sub joined_subs any
  has_sub-joined_subs accepted k j subs = elim (Bool-cases (has_sub k subs)) [
    | inl e ↦ ground (arith, has_sub_same k j subs)
    | inr e ↦ ground arith
  ]

  has_sub-keep :
      (k j : K) (subs : List K)
      → has_sub j (keep (λ i. not (i == k)) subs) ≡ (has_sub j subs && not (k == j))
  unfolding has_sub any keep
  has_sub-keep k j [] = refl
  has_sub-keep k j (i ∷ subs) =
      ground (arith, has_sub-keep k j subs, eq.same_iff i k, eq.same_iff i j, eq.same_iff k j)

  has_sub-left_subs :
      (c : Conn) (k j : K) (m : List (Entry K)) (subs : List K)
      → has_sub j (left_subs c k m subs) ≡ (has_sub j subs && not (is_last c k m && k == j))
  unfolding left_subs
  has_sub-left_subs c k j m subs = elim (Bool-cases (has_sub k subs)) [
    | inl e ↦ ground (arith, has_sub-keep k j subs)
    | inr e ↦ ground (arith, has_sub_same j k subs, eq.same_iff k j, eq.same_iff j k)
  ]

  -- A relation of the map and the subscriptions that the three operations keep holds after any
  -- operations of a hub.
  module _ (I : List (Entry K) → List K → Type 0) (ok : Op K → Type 0)
      (joined : (accepted : Bool) (c : Conn) (k : K) (m : List (Entry K)) (subs : List K)
        → ok (register_op accepted c k)
        → I m subs
        → I (put k (insert c (conns_at k m)) m) (joined_subs accepted k subs))
      (left : (c : Conn) (k : K) (m : List (Entry K)) (subs : List K)
        → I m subs
        → I (left_rooms c k m) (left_subs c k m subs))
      (none_left : I [] []) where
    plain-keeps :
        (op : Op K) (h : HubState K)
        → ok op
        → I h.rooms h.subs
        → I (plain op h).1.rooms (plain op h).1.subs
    unfolding plain
    plain-keeps (register_op accepted c k) h o i = elim (Bool-cases h.closed) [
      | inl e ↦ rw e i
      | inr e ↦ rw e (joined accepted c k h.rooms h.subs o i)
    ]
    plain-keeps (unregister_op c k) h o i = left c k h.rooms h.subs i
    plain-keeps shutdown_op h o i = none_left

    run_all-keeps :
        (step : Op K → HubState K → Bool × HubState K)
        → IsPlain step
        → (ops : List (Op K)) (h : HubState K) → All ok ops
        → I h.rooms h.subs
        → I (run_all step ops h).1.rooms (run_all step ops h).1.subs
    unfolding run_all core
    run_all-keeps step p [] h o i = i
    run_all-keeps step p (op ∷ ops) h o i =
        run_all-keeps step p ops (step op h).1 o.1
          (subst (λ v. I v.1.rooms v.1.subs) (sym (p op h)) (plain-keeps op (core h) o.0 i))

  IsUsed-joined :
      (accepted : Bool) (c : Conn) (k : K) (m : List (Entry K)) (subs : List K)
      → IsUsed m subs
      → IsUsed (put k (insert c (conns_at k m)) m) (joined_subs accepted k subs)
  IsUsed-joined accepted c k m subs u j s = ground (
    arith,
    has_sub-joined_subs accepted k j subs,
    conns_at-put k j (insert c (conns_at k m)) m,
    has_no_conns-insert c (conns_at k m),
    u j,
  )

  IsUsed-left :
      (c : Conn) (k : K) (m : List (Entry K)) (subs : List K)
      → IsUsed m subs
      → IsUsed (left_rooms c k m) (left_subs c k m subs)
  IsUsed-left c k m subs u j s =
      ground
        (arith, has_sub-left_subs c k j m subs, conns_at-left c k j m, conns_at-kept c k m, u j)

  IsServed-joined :
      (accepted : Bool) (c : Conn) (k : K) (m : List (Entry K)) (subs : List K)
      → accepted ≡ true
      → IsServed m subs
      → IsServed (put k (insert c (conns_at k m)) m) (joined_subs accepted k subs)
  IsServed-joined accepted c k m subs a u j s = ground (
    arith,
    has_sub-joined_subs accepted k j subs,
    conns_at-put k j (insert c (conns_at k m)) m,
    u j,
  )

  IsServed-left :
      (c : Conn) (k : K) (m : List (Entry K)) (subs : List K)
      → IsServed m subs
      → IsServed (left_rooms c k m) (left_subs c k m subs)
  IsServed-left c k m subs u j s = ground (
    arith,
    has_sub-left_subs c k j m subs,
    conns_at-left c k j m,
    conns_at-kept c k m,
    u j,
    has_no_conns-without c (conns_at k m),
    conns_at_same k j m,
  )

  pub run_all-IsUsed :
      (step : Op K → HubState K → Bool × HubState K)
      → IsPlain step
      → (ops : List (Op K)) (k : K) → has_sub k (run_all step ops new_hub).1.subs ≡ true
      → has_no_conns (conns_at k (run_all step ops new_hub).1.rooms) ≡ false
  unfolding has_sub any
  run_all-IsUsed step p ops =
      run_all-keeps IsUsed (λ op. Unit) (λ a c k m subs o. IsUsed-joined a c k m subs) IsUsed-left
        (λ k e. absurd (cc)) step p ops new_hub (All-any ops) (λ k e. absurd (cc))

  pub run_all-IsServed :
      (step : Op K → HubState K → Bool × HubState K)
      → IsPlain step
      → (ops : List (Op K)) → All IsAccepted ops
      → (k : K) (c : Conn)
      → holds c (receivers k (run_all step ops new_hub).1)
        ≡ (view (run_all step ops new_hub).1).members k c
  unfolding receivers view holds any IsAccepted conns_at
  run_all-IsServed step p ops a k c =
      let h = (run_all step ops new_hub).1 in
      let served =
        run_all-keeps IsServed IsAccepted (λ a c k m subs o. IsServed-joined a c k m subs o)
          IsServed-left (λ k e. absurd (cc)) step p ops new_hub a (λ k e. ground arith) k in
      elim (Bool-cases (has_sub k h.subs)) [
        | inl e ↦ ground arith
        | inr e ↦ ground (arith, not_holds c (conns_at k h.rooms))
      ]
