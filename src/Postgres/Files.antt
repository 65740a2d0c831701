-- ===== src/Postgres/Files.antt =====
-- backend/internal/postgres/files.go
pub mod Subtree
pub mod FilesOnly
pub mod Effects
pub mod Order
use pairly.Prelude.{
  nat_eq, string_eq, ℕ, ◌+◌, String, Bool, true, false, not, ◌&&◌, ◌||◌, Option, none, some, List,
  [], ◌∷◌, ◌++◌, map, ◌==◌, leb, if◌then◌else◌, find, any, keep, update,
}
use pairly.Text.{rune_count}
use pairly.Outcome.{Outcome, row, no_rows, failed, hang, wrap}
use pairly.Postgres.Schema.{File, Room, User, Db, is_user, is_room, is_file}
use pairly.Postgres.Statement.{Statement, scan}
use pairly.Postgres.Rooms.{clear_parent}
use Subtree.{subtree}

-- ORDER BY is_folder DESC, name ASC; `name_le` is the database's collation.
module _ (name_le : String → String → Bool) where
  unfoldable pub comes_first : File → File → Bool
  comes_first f g =
      if f.is_folder
      then (if g.is_folder then name_le f.name g.name else true)
      else (if g.is_folder then false else name_le f.name g.name)

  unfoldable pub insert_ordered : File → List File → List File
  unfolding comes_first
  insert_ordered f [] = f ∷ []
  insert_ordered f (g ∷ rest) =
      let later = g ∷ insert_ordered f rest in if comes_first f g then f ∷ g ∷ rest else later

  unfoldable pub order_files : List File → List File
  unfolding insert_ordered
  order_files [] = []
  order_files (f ∷ fs) = insert_ordered f (order_files fs)

  unfoldable pub get_files_for_room : ℕ → Statement (List File)
  unfolding order_files
  get_files_for_room room_id db =
      (row (order_files (keep (λ f. f.room_id == room_id) db.files)), db)

unfoldable pub get_file_by_id : ℕ → Statement File
get_file_by_id file_id db = (wrap (scan (find (is_file file_id) db.files)), db)

-- The foreign key of parent_id.
abbrev pub has_parent : Db → Option ℕ → Bool
has_parent db none = true
has_parent db (some p) = any (is_file p) db.files

-- What the table demands of a row: the foreign keys, VARCHAR(255), VARCHAR(50) and
-- folder_has_no_language.
unfoldable pub fits : Db → File → Bool
fits db f =
    any (is_room f.room_id) db.rooms
    && any (is_user f.created_by) db.users
    && has_parent db f.parent_id
    && leb (rune_count f.name) 255
    && leb (rune_count f.language) 50
    && (not f.is_folder || f.language == "")

pub record CreateFileParams : Type 0 where
  pub room_id : ℕ
  pub name : String
  pub language : String
  pub parent_id : Option ℕ
  pub is_folder : Bool
  pub created_by : ℕ

-- The row that the INSERT makes.
abbrev pub new_file : CreateFileParams → Db → File
new_file p db = record {
  id = db.next_id;
  room_id = p.room_id;
  name = p.name;
  language = p.language;
  parent_id = p.parent_id;
  is_folder = p.is_folder;
  is_active = true;
  created_by = p.created_by;
  created_at = db.now;
  updated_at = none;
}

unfoldable pub create_file : CreateFileParams → Statement File
unfolding fits
create_file p db =
    let f = new_file p db in
    if fits db f
    then (row f, record db { files = db.files ++ f ∷ []; next_id = db.next_id + 1 })
    else (failed, db)

-- The third statement of CreateRoom.
unfoldable pub insert_default_file : ℕ → ℕ → Statement ℕ
unfolding create_file
insert_default_file room_id owner_id db =
    let (o, db') =
      create_file
        (record {
          room_id = room_id;
          name = "main.py";
          language = "python";
          parent_id = none;
          is_folder = false;
          created_by = owner_id;
        })
        db in
    (elim o [ row f ↦ row f.id | no_rows ↦ no_rows | failed ↦ failed | hang ↦ hang ], db')

-- UPDATE files ... WHERE `test` RETURNING ..., which fails if a row would break a constraint, and
-- of whose rows the first is scanned: the test holds of one at most.
unfoldable pub update_returning : (File → Bool) → (File → File) → Statement File
unfolding fits
update_returning test change db = elim (find test db.files) [
  | none ↦ (failed, db)
  | some f ↦
      if any (λ g. test g && not (fits db (change g))) db.files
      then (failed, db)
      else (row (change f), record db { files = update test change db.files })
]

pub record UpdateFileParams : Type 0 where
  pub file_id : ℕ
  pub name : String
  pub language : String
  pub parent_id : Option ℕ

-- CASE WHEN $4::uuid IS NULL THEN parent_id ELSE $4 END
abbrev pub or_old : Option ℕ → Option ℕ → Option ℕ
or_old none old = old
or_old (some p) old = some p

unfoldable pub update_file : UpdateFileParams → Statement File
unfolding update_returning
update_file p db =
    update_returning (λ f. f.id == p.file_id && not f.is_folder && f.is_active)
      (λ f. record f {
        name = p.name;
        language = p.language;
        parent_id = or_old p.parent_id f.parent_id;
        updated_at = some db.now;
      })
      db

pub record UpdateFolderParams : Type 0 where
  pub folder_id : ℕ
  pub name : String
  pub parent_id : Option ℕ

unfoldable pub update_folder : UpdateFolderParams → Statement File
unfolding update_returning
update_folder p db =
    update_returning (λ f. f.id == p.folder_id && f.is_folder && f.is_active)
      (λ f. record f {
        name = if p.name == "" then f.name else p.name;
        parent_id = p.parent_id;
        updated_at = some db.now;
      })
      db

unfoldable pub toggle_file : ℕ → Statement File
unfolding update_returning
toggle_file file_id db =
    update_returning (λ f. f.id == file_id && not f.is_folder)
      (λ f. record f { is_active = not f.is_active; parent_id = none; updated_at = some db.now }) db

unfoldable pub move_folder : ℕ → Option ℕ → Statement File
unfolding update_returning
move_folder folder_id parent_id db =
    update_returning (λ f. f.id == folder_id && f.is_folder && f.is_active)
      (λ f. record f { parent_id = parent_id; updated_at = some db.now }) db

abbrev pub is_one_of : List ℕ → File → Bool
is_one_of ids f = any (λ id. id == f.id) ids

-- SELECT NOT is_active FROM files WHERE id = $1
abbrev pub target_state : ℕ → Db → Bool
target_state folder_id db = elim (find (is_file folder_id) db.files) [
  | none ↦ false
  | some f ↦ not f.is_active
]

abbrev pub set_active : Bool → ℕ → File → File
set_active state now f = record f { is_active = state; updated_at = some now }

-- The recursive query of the next three statements may not end: then nothing is changed.
unfoldable pub toggle_folder : ℕ → Statement (List File)
unfolding subtree
toggle_folder folder_id db = elim (subtree db.files folder_id) [
  | none ↦ (hang, db)
  | some ids ↦
      let flip = set_active (target_state folder_id db) db.now in
      (
        row (map flip (keep (is_one_of ids) db.files)),
        record db { files = update (is_one_of ids) flip db.files },
      )
]

-- The ids of the subtree that are no folders, in the order of the query.
unfoldable pub file_ids : List File → List ℕ → List ℕ
file_ids files [] = []
file_ids files (id ∷ ids) =
    let rest = file_ids files ids in
    if any (λ f. f.id == id && not f.is_folder) files then id ∷ rest else rest

unfoldable pub get_file_descendant_ids : ℕ → Statement (List ℕ)
unfolding subtree file_ids
get_file_descendant_ids file_id db = elim (subtree db.files file_id) [
  | none ↦ (hang, db)
  | some ids ↦ (row (file_ids db.files ids), db)
]

unfoldable pub permanent_delete_file : ℕ → Statement (Unit {0})
unfolding subtree
permanent_delete_file file_id db = elim (subtree db.files file_id) [
  | none ↦ (hang, db)
  | some ids ↦ (
    row tt,
    record db {
      files =
          map (clear_parent (λ id. any (λ f. f.id == id && is_one_of ids f) db.files))
            (keep (λ f. not (is_one_of ids f)) db.files);
    },
  )
]
