-- ===== src/Websocket/HubState/Plain.antt =====
-- What the three hubs have in common: each operation but for the counters, over any type of keys.
use pairly.Prelude.{
  ◌≡◌, refl, ap, ◌∙◌, inl, inr, Bool, true, false, not, ◌&&◌, ◌||◌, List, [], ◌∷◌, arith,
  if◌then◌else◌, Comparable, string_eq, nat_eq, Bool-cases, ◌==◌, length, keep, any,
}
use pairly.Websocket.Registry.{Conn, Entry, holds, insert, without, has_key, conns_at, put, delete}
use pairly.Websocket.Registry.Views.{
  holds-insert, holds-without, conns_at-put, conns_at-delete, conns_at_missing,
}
use pairly.Websocket.HubState.{HubState, has_sub, no_metrics}
use pairly.Websocket.HubState.Abstract.{
  Op, register_op, unregister_op, shutdown_op, Abstract, view, promised, IsFaithful,
}

unfoldable pub core : {K : Type 0} → HubState K → HubState K
core h = record h { metrics = no_metrics }

module _ {K : Type 0} ⦃eq : Comparable K⦄ where
  abbrev pub kept_rooms : Conn → K → List (Entry K) → List (Entry K)
  kept_rooms c k m = if has_key k m then put k (without c (conns_at k m)) m else m

  abbrev pub is_last : Conn → K → List (Entry K) → Bool
  is_last c k m = length (conns_at k (kept_rooms c k m)) == 0

  unfoldable pub left_rooms : Conn → K → List (Entry K) → List (Entry K)
  left_rooms c k m = if is_last c k m then delete k (kept_rooms c k m) else kept_rooms c k m

  unfoldable pub left_subs : Conn → K → List (Entry K) → List K → List K
  left_subs c k m subs =
      if is_last c k m then if has_sub k subs then keep (λ j. not (j == k)) subs else subs else subs

  unfoldable pub joined_subs : Bool → K → List K → List K
  joined_subs accepted k subs = if has_sub k subs then subs else if accepted then k ∷ subs else subs

  unfoldable pub plain : Op K → HubState K → Bool × HubState K
  plain (register_op accepted c k) h = if h.closed then (false, h) else (
    true,
    record h {
      rooms = put k (insert c (conns_at k h.rooms)) h.rooms;
      subs = joined_subs accepted k h.subs;
    },
  )
  plain (unregister_op c k) h =
      (true, record h { rooms = left_rooms c k h.rooms; subs = left_subs c k h.rooms h.subs })
  plain shutdown_op h = (true, record h { closed = true; rooms = []; subs = [] })

  -- A hub whose operations are the common ones, whatever they count.
  abbrev pub IsPlain : (Op K → HubState K → Bool × HubState K) → Type 0
  IsPlain step =
      (op : Op K) (h : HubState K) → ((step op h).0, core (step op h).1) ≡ plain op (core h)

length_zero : {A : Type 0} (xs : List A) → (length xs == 0) ≡ true → xs ≡ []
length_zero [] h = refl
length_zero (x ∷ xs) h = ground arith

module _ {K : Type 0} ⦃eq : Comparable K⦄ where
  -- What each operation does to the map, whatever it does to the counters.
  pub conns_at_same : (k j : K) (m : List (Entry K)) → (k == j) ≡ true → conns_at k m ≡ conns_at j m
  conns_at_same k j m e = ap (λ x. conns_at x m) ((eq.same_iff k j).0 e)

  pub conns_at-kept :
      (c : Conn) (k : K) (m : List (Entry K))
      → conns_at k (kept_rooms c k m) ≡ without c (conns_at k m)
  unfolding without keep
  conns_at-kept c k m = elim (Bool-cases (has_key k m)) [
    | inl e ↦ ground (arith, conns_at-put k k (without c (conns_at k m)) m, eq.same_iff k k)
    | inr e ↦ ground (arith, conns_at_missing k m)
  ]

  pub conns_at-left :
      (c : Conn) (k j : K) (m : List (Entry K))
      → conns_at j (left_rooms c k m) ≡ (if k == j then without c (conns_at k m) else conns_at j m)
  unfolding left_rooms without keep
  conns_at-left c k j m = elim (Bool-cases (has_key k m)) [
    | inl e ↦
        let kept = kept_rooms c k m in
        elim (Bool-cases (length (conns_at k kept) == 0)) [
          | inl z ↦ ground (
            arith,
            conns_at-put k j (without c (conns_at k m)) m,
            conns_at-put k k (without c (conns_at k m)) m,
            conns_at-delete k j kept,
            length_zero (conns_at k kept),
            eq.same_iff k k,
          )
          | inr z ↦ ground (arith, conns_at-put k j (without c (conns_at k m)) m)
        ]
    | inr e ↦ ground (arith, conns_at-delete k j m, conns_at_missing k m, e)
  ]

  members-joined :
      (c d : Conn) (k j : K) (m : List (Entry K))
      → holds d (conns_at j (put k (insert c (conns_at k m)) m))
        ≡ ((k == j && c == d) || holds d (conns_at j m))
  members-joined c d k j m = elim (Bool-cases (k == j)) [
    | inl e ↦ ground (
      arith,
      conns_at-put k j (insert c (conns_at k m)) m,
      holds-insert c d (conns_at k m),
      conns_at_same k j m e,
    )
    | inr e ↦ ground (arith, conns_at-put k j (insert c (conns_at k m)) m)
  ]

  members-left :
      (c d : Conn) (k j : K) (m : List (Entry K))
      → holds d (conns_at j (left_rooms c k m)) ≡ (not (k == j && c == d) && holds d (conns_at j m))
  members-left c d k j m = elim (Bool-cases (k == j)) [
    | inl e ↦
        ground
          (arith, conns_at-left c k j m, holds-without c d (conns_at k m), conns_at_same k j m e)
    | inr e ↦ ground (arith, conns_at-left c k j m)
  ]

Abstract-ext :
    {K : Type 0} {a b : Abstract K}
    → a.is_closed ≡ b.is_closed
    → ((k : K) (c : Conn) → a.members k c ≡ b.members k c)
    → a ≡ b
Abstract-ext e f = λ i. record { is_closed = e i; members = λ k c. f k c i }

module _ {K : Type 0} ⦃eq : Comparable K⦄ where
  plain-IsFaithful : IsFaithful {K = K} plain
  unfolding plain view promised conns_at holds any
  plain-IsFaithful (register_op accepted c k) h = elim (Bool-cases h.closed) [
    | inl e ↦ rw e refl
    | inr e ↦ rw e (ap (λ v. (true, v)) (Abstract-ext refl (λ j d. members-joined c d k j h.rooms)))
  ]
  plain-IsFaithful (unregister_op c k) h =
      ap (λ v. (true, v)) (Abstract-ext refl (λ j d. members-left c d k j h.rooms))
  plain-IsFaithful shutdown_op h = refl

  -- An implementation of the common operations does what is promised.
  pub IsPlain-IsFaithful :
      (step : Op K → HubState K → Bool × HubState K) → IsPlain step → IsFaithful step
  unfolding view core
  IsPlain-IsFaithful step p op h = ap (λ v. (v.0, view v.1)) (p op h) ∙ plain-IsFaithful op (core h)
