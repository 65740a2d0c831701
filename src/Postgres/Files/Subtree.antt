-- ===== src/Postgres/Files/Subtree.antt =====
-- The recursive query of backend/internal/postgres/files.go:
--   WITH RECURSIVE subtree AS (SELECT id FROM files WHERE id = $1
--     UNION ALL SELECT f.id FROM files f INNER JOIN subtree s ON f.parent_id = s.id)
-- The database joins the rows of the last round with the table, until a round finds no row.
pub mod Descendants
pub mod Exact
pub mod Terminates
pub mod Cycle
pub mod Forest
use pairly.Prelude.{
  nat_eq, ℕ, zero, suc, Bool, true, false, Option, none, some, List, [], ◌∷◌, ◌++◌, ◌==◌,
  if◌then◌else◌, any, length,
}
use pairly.Postgres.Schema.{File, is_file}

abbrev pub is_child_of : ℕ → File → Bool
is_child_of p f = elim f.parent_id [ none ↦ false | some q ↦ q == p ]

-- The ids of the children of one row.
unfoldable pub children_of : List File → ℕ → List ℕ
children_of [] p = []
children_of (f ∷ fs) p =
    let rest = children_of fs p in if is_child_of p f then f.id ∷ rest else rest

-- One round: the join of the working table with `files`.
unfoldable pub children : List File → List ℕ → List ℕ
unfolding children_of
children files [] = []
children files (p ∷ ps) = children_of files p ++ children files ps

-- The rounds from a working table on; `none` if the fuel runs out before a round is empty.
unfoldable pub descend : ℕ → List File → List ℕ → Option (List ℕ)
unfolding children
descend fuel files [] = some []
descend zero files (id ∷ ids) = none
descend (suc fuel) files (id ∷ ids) = elim (descend fuel files (children files (id ∷ ids))) [
  | none ↦ none
  | some below ↦ some ((id ∷ ids) ++ below)
]

-- The fuel is the number of rows.
unfoldable pub subtree : List File → ℕ → Option (List ℕ)
unfolding descend
subtree files root =
    if any (is_file root) files then descend (length files) files (root ∷ []) else some []
