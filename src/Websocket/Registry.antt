-- ===== src/Websocket/Registry.antt =====
-- The map of a hub from a key to a set of connections, map[string]map[*websocket.Conn]bool, as an
-- association list of sets. A connection is a number.
pub mod Views
pub mod Counts
use pairly.Prelude.{
  ℕ, ◌+◌, Bool, true, false, not, ◌||◌, List, [], ◌∷◌, ◌++◌, keep, any, length, nat_eq, Comparable,
  ◌==◌, if◌then◌else◌,
}

abbrev pub Conn : Type 0
Conn = ℕ

pub record Entry (K : Type 0) : Type 0 where
  pub key : K
  pub conns : List Conn

-- The sets of connections, map[*websocket.Conn]bool.
unfoldable pub holds : Conn → List Conn → Bool
holds c cs = any (λ d. d == c) cs

unfoldable pub insert : Conn → List Conn → List Conn
insert c cs = if holds c cs then cs else c ∷ cs

unfoldable pub without : Conn → List Conn → List Conn
without c cs = keep (λ d. not (d == c)) cs

module _ {K : Type 0} ⦃eq : Comparable K⦄ where
  unfoldable pub has_key : K → List (Entry K) → Bool
  has_key k m = any (λ e. e.key == k) m

  -- m[k], which is nil, a set of no elements, for a key that is not there
  unfoldable pub conns_at : K → List (Entry K) → List Conn
  conns_at k [] = []
  conns_at k (e ∷ m) = let rest = conns_at k m in if e.key == k then e.conns else rest

  -- m[k] = cs
  unfoldable pub put : K → List Conn → List (Entry K) → List (Entry K)
  put k cs [] = record { key = k; conns = cs } ∷ []
  put k cs (e ∷ m) =
      let rest = put k cs m in if e.key == k then record e { conns = cs } ∷ m else e ∷ rest

  -- delete(m, k)
  unfoldable pub delete : K → List (Entry K) → List (Entry K)
  delete k m = keep (λ e. not (e.key == k)) m

unfoldable pub all_conns : {K : Type 0} → List (Entry K) → List Conn
all_conns [] = []
all_conns (e ∷ m) = e.conns ++ all_conns m
