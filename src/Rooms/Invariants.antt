-- ===== src/Rooms/Invariants.antt =====
-- What a predicate on the tables needs to hold along every handler of backend/internal/rooms: each
-- statement that writes, and the transaction of CreateRoom, keeps it.
pub mod Writes
pub mod Handlers
use pairly.Prelude.{ℕ, String, ◌≡◌, true, ◌||◌, ◌==◌, string_eq}
use pairly.Postgres.Schema.{Db}
use pairly.Postgres.Rooms.{
  with_role, add_member, remove_member, leave_room, update_member_role, rename_room, delete_room,
}
use pairly.Postgres.Files.{
  CreateFileParams, UpdateFileParams, UpdateFolderParams, create_file, update_file, update_folder,
  toggle_file, toggle_folder, permanent_delete_file,
}
use pairly.World.Action.Keeps.{KeepsCall}
use pairly.World.Action.Tables.{OfDb, KeepsDb}
use pairly.Rooms.RoomsHandler.{create_room_call}
use pairly.Rooms.MembersHandler.{valid_role}

-- The roles that a handler gives are those that its binding lets through.
pub record IsKept (I : Db → Type 0) : Type 0 where
  pub by_create_room : (name : String) (u : ℕ) → KeepsCall (OfDb I) (create_room_call name u)
  pub by_add_member :
      (r u : ℕ) (role : String)
      → valid_role role ≡ true
      → KeepsDb I (with_role role (add_member r u))
  pub by_remove_member : (r u : ℕ) → KeepsDb I (remove_member r u)
  pub by_leave_room : (r u : ℕ) → KeepsDb I (leave_room r u)
  pub by_update_member_role :
      (r u : ℕ) (role : String)
      → valid_role role ≡ true
      → KeepsDb I (with_role role (update_member_role r u))
  pub by_rename_room : (r : ℕ) (name : String) → KeepsDb I (rename_room r name)
  pub by_delete_room : (r : ℕ) → KeepsDb I (delete_room r)
  pub by_create_file : (p : CreateFileParams) → KeepsDb I (create_file p)
  pub by_update_file : (p : UpdateFileParams) → KeepsDb I (update_file p)
  pub by_update_folder : (p : UpdateFolderParams) → KeepsDb I (update_folder p)
  pub by_toggle_file : (f : ℕ) → KeepsDb I (toggle_file f)
  pub by_toggle_folder : (f : ℕ) → KeepsDb I (toggle_folder f)
  pub by_permanent_delete_file : (f : ℕ) → KeepsDb I (permanent_delete_file f)
