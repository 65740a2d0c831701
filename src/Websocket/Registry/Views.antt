-- ===== src/Websocket/Registry/Views.antt =====
-- What a lookup finds in the map of a hub after each change.
use pairly.Prelude.{
  ◌≡◌, refl, subst, inl, inr, true, false, not, ◌&&◌, ◌||◌, List, [], ◌∷◌, arith, if◌then◌else◌,
  Comparable, string_eq, nat_eq, Bool-cases, ◌==◌, ==_iff, keep, any,
}
use pairly.Websocket.Registry.{Conn, Entry, holds, insert, without, has_key, conns_at, put, delete}

holds_same : (c d : Conn) (cs : List Conn) → holds c cs ≡ true → c ≡ d → holds d cs ≡ true
holds_same c d cs h e = subst (λ x. holds x cs ≡ true) e h

pub holds-insert : (c d : Conn) (cs : List Conn) → holds d (insert c cs) ≡ ((c == d) || holds d cs)
unfolding holds insert any
holds-insert c d cs = elim (Bool-cases (holds c cs)) [
  | inl e ↦ ground (arith, holds_same c d cs, ==_iff c d)
  | inr e ↦ ground arith
]

pub holds-without :
    (c d : Conn) (cs : List Conn) → holds d (without c cs) ≡ (not (c == d) && holds d cs)
unfolding holds without any keep
holds-without c d [] = ground arith
holds-without c d (x ∷ cs) =
    ground (arith, holds-without c d cs, ==_iff x c, ==_iff x d, ==_iff c d)

module _ {K : Type 0} ⦃eq : Comparable K⦄ where
  pub conns_at-put :
      (k j : K) (cs : List Conn) (m : List (Entry K))
      → conns_at j (put k cs m) ≡ (if k == j then cs else conns_at j m)
  unfolding conns_at put
  conns_at-put k j cs [] = ground arith
  conns_at-put k j cs (e ∷ m) =
      ground
        (arith, conns_at-put k j cs m, eq.same_iff e.key k, eq.same_iff e.key j, eq.same_iff k j)

  pub conns_at-delete :
      (k j : K) (m : List (Entry K))
      → conns_at j (delete k m) ≡ (if k == j then [] else conns_at j m)
  unfolding conns_at delete keep
  conns_at-delete k j [] = ground arith
  conns_at-delete k j (e ∷ m) =
      ground
        (arith, conns_at-delete k j m, eq.same_iff e.key k, eq.same_iff e.key j, eq.same_iff k j)

  pub has_key-put :
      (k j : K) (cs : List Conn) (m : List (Entry K))
      → has_key j (put k cs m) ≡ ((k == j) || has_key j m)
  unfolding has_key put any
  has_key-put k j cs [] = ground arith
  has_key-put k j cs (e ∷ m) =
      ground
        (arith, has_key-put k j cs m, eq.same_iff e.key k, eq.same_iff e.key j, eq.same_iff k j)

  pub has_key-delete :
      (k j : K) (m : List (Entry K)) → has_key j (delete k m) ≡ (not (k == j) && has_key j m)
  unfolding has_key delete any keep
  has_key-delete k j [] = ground arith
  has_key-delete k j (e ∷ m) =
      ground
        (arith, has_key-delete k j m, eq.same_iff e.key k, eq.same_iff e.key j, eq.same_iff k j)

  pub conns_at_missing : (k : K) (m : List (Entry K)) → has_key k m ≡ false → conns_at k m ≡ []
  unfolding has_key conns_at any
  conns_at_missing k [] h = refl
  conns_at_missing k (e ∷ m) h = ground (arith, conns_at_missing k m)
