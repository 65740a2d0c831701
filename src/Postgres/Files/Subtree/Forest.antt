-- ===== src/Postgres/Files/Subtree/Forest.antt =====
-- parent_id without a cycle, under statements of backend/internal/postgres/files.go.
use pairly.Prelude.{
  nat_eq, ℕ, ◌≡◌, refl, sym, ◌∙◌, Bool, true, List, [], ◌∷◌, map, arith, keep, update, Option-cases,
  inl, inr,
}
use pairly.Postgres.Schema.{File, Db}
use pairly.Postgres.Rooms.{clear_parent}
use pairly.Postgres.Files.{
  set_active, is_one_of, target_state, toggle_folder, permanent_delete_file,
}
use pairly.Postgres.Files.Subtree.{subtree}
use pairly.Postgres.Files.Subtree.Descendants.{is_edge}
use pairly.Postgres.Files.Subtree.Terminates.{IsForest}

-- Fewer edges make no cycle.
IsForest-fewer :
    (files files' : List File)
    → ((p c : ℕ) → is_edge files' p c ≡ true → is_edge files p c ≡ true)
    → IsForest files
    → IsForest files'
IsForest-fewer files files' fewer v = record {
  rank = v.rank;
  falls = λ p c e. v.falls p c (fewer p c e);
}

edge-update :
    (test : File → Bool) (state : Bool) (now : ℕ) (files : List File) (p c : ℕ)
    → is_edge (update test (set_active state now) files) p c ≡ is_edge files p c
unfolding is_edge update
edge-update test state now [] p c = refl
edge-update test state now (f ∷ fs) p c = ground (arith, edge-update test state now fs p c)

edge-cut :
    (gone : ℕ → Bool) (kept : File → Bool) (files : List File) (p c : ℕ)
    → is_edge (map (clear_parent gone) (keep kept files)) p c ≡ true
    → is_edge files p c ≡ true
unfolding is_edge keep
edge-cut gone kept [] p c h = h
edge-cut gone kept (f ∷ fs) p c h = ground (arith, edge-cut gone kept fs p c)

-- ToggleFolder keeps the tree of files a forest.
pub toggle_folder-IsForest :
    (db : Db) (folder : ℕ) → IsForest db.files → IsForest (toggle_folder folder db).1.files
unfolding toggle_folder
toggle_folder-IsForest db folder v = elim (Option-cases (subtree db.files folder)) [
  | inl e ↦ rw (e, toggle_folder) v
  | inr (ids, e) ↦
      rw (e, toggle_folder)
        (IsForest-fewer db.files _
          (λ p c g.
            sym (edge-update (is_one_of ids) (target_state folder db) db.now db.files p c) ∙ g)
          v)
]

-- PermanentDeleteFile keeps the tree of files a forest.
pub permanent_delete_file-IsForest :
    (db : Db) (file : ℕ) → IsForest db.files → IsForest (permanent_delete_file file db).1.files
unfolding permanent_delete_file
permanent_delete_file-IsForest db file v = elim (Option-cases (subtree db.files file)) [
  | inl e ↦ rw (e, permanent_delete_file) v
  | inr (ids, e) ↦
      rw (e, permanent_delete_file) (IsForest-fewer db.files _ (edge-cut _ _ db.files) v)
]
