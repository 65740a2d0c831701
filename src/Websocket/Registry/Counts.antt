-- ===== src/Websocket/Registry/Counts.antt =====
-- How many connections the map of a hub has, after each change.
use pairly.Prelude.{
  ◌+◌, ◌≡◌, refl, sym, ap, ◌∙◌, inl, inr, true, false, List, [], ◌∷◌, arith, Comparable, string_eq,
  nat_eq, Bool-cases, ◌==◌, ==_iff, length, keep, any, length-append,
}
use pairly.Websocket.Registry.{
  Conn, Entry, holds, insert, without, has_key, conns_at, put, delete, all_conns,
}
use pairly.Websocket.Registry.Views.{has_key-put, has_key-delete}

-- A set has no connection twice; a map has no key twice, and its values are sets.
unfoldable pub IsUnique : List Conn → Type 0
IsUnique [] = Unit
IsUnique (c ∷ cs) = (holds c cs ≡ false) × IsUnique cs

module _ {K : Type 0} ⦃eq : Comparable K⦄ where
  unfoldable pub IsMap : List (Entry K) → Type 0
  IsMap [] = Unit
  IsMap (e ∷ m) = (has_key e.key m ≡ false) × IsUnique e.conns × IsMap m

pub insert-IsUnique : (c : Conn) (cs : List Conn) → IsUnique cs → IsUnique (insert c cs)
unfolding IsUnique insert
insert-IsUnique c cs u = elim (Bool-cases (holds c cs)) [ inl e ↦ rw e u | inr e ↦ rw e (e, u) ]

holds-without_ne :
    (c d : Conn) (cs : List Conn) → holds d cs ≡ false → holds d (without c cs) ≡ false
unfolding holds without any keep
holds-without_ne c d [] h = refl
holds-without_ne c d (x ∷ cs) h = ground (arith, holds-without_ne c d cs)

pub without-IsUnique : (c : Conn) (cs : List Conn) → IsUnique cs → IsUnique (without c cs)
unfolding IsUnique without keep
without-IsUnique c [] u = tt
without-IsUnique c (x ∷ cs) u = elim (Bool-cases (x == c)) [
  | inl e ↦ rw e (without-IsUnique c cs u.1)
  | inr e ↦ rw e (holds-without_ne c x cs u.0, without-IsUnique c cs u.1)
]

pub length-insert :
    (c : Conn) (cs : List Conn) → holds c cs ≡ false → length (insert c cs) ≡ length cs + 1
unfolding insert
length-insert c cs h = ground arith

without_missing : (c : Conn) (cs : List Conn) → holds c cs ≡ false → without c cs ≡ cs
unfolding without holds any keep
without_missing c [] h = refl
without_missing c (x ∷ cs) h = ground (arith, without_missing c cs)

pub length-without :
    (c : Conn) (cs : List Conn)
    → IsUnique cs
    → holds c cs ≡ true
    → length (without c cs) + 1 ≡ length cs
unfolding without holds any keep IsUnique
length-without c [] u h = absurd (ground arith)
length-without c (x ∷ cs) u h = elim (Bool-cases (x == c)) [
  | inl e ↦ ground (arith, without_missing c cs, ap (λ y. holds y cs) ((==_iff x c).0 e), u.0)
  | inr e ↦ ground (arith, length-without c cs u.1)
]

module _ {K : Type 0} ⦃eq : Comparable K⦄ where
  pub conns_at-IsUnique : (k : K) (m : List (Entry K)) → IsMap m → IsUnique (conns_at k m)
  unfolding conns_at IsMap IsUnique
  conns_at-IsUnique k [] u = tt
  conns_at-IsUnique k (e ∷ m) u = elim (Bool-cases (e.key == k)) [
    | inl h ↦ rw h u.1
    | inr h ↦ rw h (conns_at-IsUnique k m u.2)
  ]

  pub put-IsMap :
      (k : K) (cs : List Conn) (m : List (Entry K)) → IsUnique cs → IsMap m → IsMap (put k cs m)
  unfolding put IsMap has_key any
  put-IsMap k cs [] i u = (refl, i, tt)
  put-IsMap k cs (e ∷ m) i u = elim (Bool-cases (e.key == k)) [
    | inl h ↦ rw h (u.0, i, u.2)
    | inr h ↦ rw h (
      ground (arith, has_key-put k e.key cs m, eq.same_iff k e.key, eq.same_iff e.key k, u.0),
      u.1,
      put-IsMap k cs m i u.2,
    )
  ]

  pub delete-IsMap : (k : K) (m : List (Entry K)) → IsMap m → IsMap (delete k m)
  unfolding delete keep IsMap
  delete-IsMap k [] u = tt
  delete-IsMap k (e ∷ m) u = elim (Bool-cases (e.key == k)) [
    | inl h ↦ rw h (delete-IsMap k m u.2)
    | inr h ↦ rw h (ground (arith, has_key-delete k e.key m, u.0), u.1, delete-IsMap k m u.2)
  ]

  pub length-put :
      (k : K) (cs : List Conn) (m : List (Entry K))
      → length (all_conns (put k cs m)) + length (conns_at k m) ≡ length (all_conns m) + length cs
  unfolding put conns_at all_conns
  length-put k cs [] = ground (arith, length-append cs [])
  length-put k cs (e ∷ m) = elim (Bool-cases (e.key == k)) [
    | inl h ↦
        rw h (omega (arith, length-append cs (all_conns m), length-append e.conns (all_conns m)))
    | inr h ↦ rw h (
        omega (
          arith,
          length-append e.conns (all_conns (put k cs m)),
          length-append e.conns (all_conns m),
          length-put k cs m,
        ))
  ]

  pub delete_missing : (k : K) (m : List (Entry K)) → has_key k m ≡ false → delete k m ≡ m
  unfolding delete keep has_key any
  delete_missing k [] h = refl
  delete_missing k (e ∷ m) h = ground (arith, delete_missing k m)

  pub length-delete :
      (k : K) (m : List (Entry K))
      → IsMap m
      → length (all_conns (delete k m)) + length (conns_at k m) ≡ length (all_conns m)
  unfolding delete keep conns_at all_conns IsMap
  length-delete k [] u = refl
  length-delete k (e ∷ m) u = elim (Bool-cases (e.key == k)) [
    | inl h ↦
        let gone = ap (λ j. has_key j m) ((eq.same_iff e.key k).0 h) in
        rw (h, delete_missing k m (sym gone ∙ u.0))
          (omega (arith, length-append e.conns (all_conns m)))
    | inr h ↦ rw h (
        omega (
          arith,
          length-append e.conns (all_conns (delete k m)),
          length-append e.conns (all_conns m),
          length-delete k m u.2,
        ))
  ]
