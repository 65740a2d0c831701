-- ===== src/Postgres/Files/FilesOnly.antt =====
-- The statements of files.go change no table but `files`.
use pairly.Prelude.{ℕ, ◌≤◌, ◌≡◌, arith}
use pairly.Postgres.Schema.{Db}
use pairly.Postgres.Files.{
  CreateFileParams, UpdateFileParams, UpdateFolderParams, create_file, insert_default_file,
  update_file, update_folder, toggle_file, toggle_folder, get_file_descendant_ids,
  permanent_delete_file,
}

pub record FilesOnly (db db' : Db) : Type 0 where
  pub users : db'.users ≡ db.users
  pub rooms : db'.rooms ≡ db.rooms
  pub members : db'.members ≡ db.members
  pub next_id : db.next_id ≤ db'.next_id

module _ (db : Db) where
  pub create_file-FilesOnly : (p : CreateFileParams) → FilesOnly db (create_file p db).1
  unfolding create_file
  create_file-FilesOnly p = ground arith

  pub insert_default_file-FilesOnly :
      (room_id owner_id : ℕ) → FilesOnly db (insert_default_file room_id owner_id db).1
  unfolding insert_default_file
  insert_default_file-FilesOnly room_id owner_id = ground arith

  pub update_file-FilesOnly : (p : UpdateFileParams) → FilesOnly db (update_file p db).1
  unfolding update_file
  update_file-FilesOnly p = ground arith

  pub update_folder-FilesOnly : (p : UpdateFolderParams) → FilesOnly db (update_folder p db).1
  unfolding update_folder
  update_folder-FilesOnly p = ground arith

  pub toggle_file-FilesOnly : (id : ℕ) → FilesOnly db (toggle_file id db).1
  unfolding toggle_file
  toggle_file-FilesOnly id = ground arith

  pub toggle_folder-FilesOnly : (id : ℕ) → FilesOnly db (toggle_folder id db).1
  unfolding toggle_folder
  toggle_folder-FilesOnly id = ground arith

  pub permanent_delete_file-FilesOnly : (id : ℕ) → FilesOnly db (permanent_delete_file id db).1
  unfolding permanent_delete_file
  permanent_delete_file-FilesOnly id = ground arith

  pub get_file_descendant_ids-FilesOnly : (id : ℕ) → FilesOnly db (get_file_descendant_ids id db).1
  unfolding get_file_descendant_ids
  get_file_descendant_ids-FilesOnly id = ground arith
