-- ===== src/Tests/Files.antt =====
-- The theorems of the tree of files, at src/docs/b.py, src/a.py and main.py.
use pairly.Prelude.{
  nat_eq, string_eq, ℕ, ◌≡◌, ◌≢◌, ◌↔◌, refl, String, Bool, true, false, none, some, List, [], ◌∷◌,
  arith, ◌==◌, if◌then◌else◌, any, find, keep, inl,
}
use mathlib.Core.List.{Perm}
use pairly.Outcome.{row}
use pairly.Postgres.Schema.{File, is_file}
use pairly.Postgres.Files.{toggle_folder, permanent_delete_file, get_files_for_room}
use pairly.Postgres.Files.Subtree.{children_of, children, descend, subtree}
use pairly.Postgres.Files.Subtree.Descendants.{has, is_edge, IsBelow, itself, under}
use pairly.Postgres.Files.Subtree.Exact.{subtree-IsBelow}
use pairly.Postgres.Files.Subtree.Terminates.{IsForest, subtree-ne-none}
use pairly.Postgres.Files.Subtree.Forest.{toggle_folder-IsForest, permanent_delete_file-IsForest}
use pairly.Postgres.Files.Subtree.Cycle.{descend_cycle}
use pairly.Postgres.Files.Effects.{
  toggle_folder_below, toggle_folder_other, permanent_delete_file_below,
  permanent_delete_file_other,
}
use pairly.Postgres.Files.Order.{IsSorted, get_files_for_room-IsSorted}
use pairly.Tests.Fixtures.{files, node, db}

abbrev rank : ℕ → ℕ
rank x = if x == 21 then 1 else if x == 22 then 1 else if x == 23 then 2 else 0

forest : IsForest files
forest = record { rank = rank; falls = λ p c e. unfold is_edge in ground arith }

abbrev src_ids : List ℕ
src_ids = 20 ∷ 21 ∷ 22 ∷ 23 ∷ []

src_found : subtree files 20 ≡ some src_ids
unfolding subtree descend children children_of any
src_found = refl

known : any (is_file 20) files ≡ true
unfolding any
known = refl

subtree-IsBelow_example : (has src_ids 23 ≡ true) ↔ IsBelow files 20 23
subtree-IsBelow_example = subtree-IsBelow files 20 src_ids 23 known src_found

subtree-ne-none_example : subtree files 20 ≢ none
subtree-ne-none_example = subtree-ne-none files 20 forest

b-IsBelow : IsBelow files 20 23
b-IsBelow = under (under itself edge_docs) edge_b
  where
    edge_docs : is_edge files 20 22 ≡ true
    edge_docs = unfold is_edge in refl

    edge_b : is_edge files 22 23 ≡ true
    edge_b = unfold is_edge in refl

main_not-IsBelow : ¬ IsBelow files 20 24
main_not-IsBelow b =
    absurd (unfold has in cc ((subtree-IsBelow files 20 src_ids 24 known src_found).1 b))

-- `docs` is moved into `docs`.
abbrev looped : List File
looped = node 22 "docs" (some 22) true ∷ []

loop : is_edge looped 22 22 ≡ true
unfolding is_edge
loop = refl

descend_cycle_example : descend 1000 looped (22 ∷ []) ≡ none
descend_cycle_example = descend_cycle 1000 looped 22 22 loop itself

src_row : find (is_file 20) db.files ≡ some (node 20 "src" none true)
unfolding find
src_row = refl

b_row : find (is_file 23) db.files ≡ some (node 23 "b.py" (some 22) false)
unfolding find
b_row = refl

main_row : find (is_file 24) db.files ≡ some (node 24 "main.py" none false)
unfolding find
main_row = refl

toggle_folder_below_example :
    find (is_file 23) (toggle_folder 20 db).1.files
    ≡ some (record (node 23 "b.py" (some 22) false) { is_active = false; updated_at = some 5 })
toggle_folder_below_example = toggle_folder_below db forest 20 _ src_row 23 _ b_row b-IsBelow

toggle_folder_other_example :
    find (is_file 24) (toggle_folder 20 db).1.files ≡ some (node 24 "main.py" none false)
toggle_folder_other_example =
    toggle_folder_other db forest 20 _ src_row 24 _ main_row main_not-IsBelow

permanent_delete_file_below_example : find (is_file 23) (permanent_delete_file 20 db).1.files ≡ none
permanent_delete_file_below_example =
    permanent_delete_file_below db forest 20 _ src_row 23 _ b_row b-IsBelow

permanent_delete_file_other_example :
    find (is_file 24) (permanent_delete_file 20 db).1.files ≡ some (node 24 "main.py" none false)
permanent_delete_file_other_example =
    permanent_delete_file_other db forest 20 _ src_row 24 _ main_row main_not-IsBelow

-- A collation of one class.
abbrev all_equal : String → String → Bool
all_equal a b = true

get_files_for_room-IsSorted_example :
    (fs : List File) × ((get_files_for_room all_equal 10 db).0 ≡ row fs)
    × Perm fs (keep (λ f. f.room_id == 10) db.files)
    × IsSorted all_equal fs
get_files_for_room-IsSorted_example = get_files_for_room-IsSorted all_equal (λ a b. inl refl) 10 db

toggle_folder-IsForest_example : IsForest (toggle_folder 20 db).1.files
toggle_folder-IsForest_example = toggle_folder-IsForest db 20 forest

permanent_delete_file-IsForest_example : IsForest (permanent_delete_file 20 db).1.files
permanent_delete_file-IsForest_example = permanent_delete_file-IsForest db 20 forest
