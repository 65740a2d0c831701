-- ===== src/Rooms/Ownership/Statements.antt =====
-- The statements keep the owners rightful.
use pairly.Prelude.{string_eq, nat_eq, ℕ, String, ◌≡◌, ◌⊎◌, inl, inr, true, arith, ◌==◌, Bool-cases}
use pairly.Postgres.Schema.{editor, viewer}
use pairly.Postgres.Rooms.{
  role_of, with_role, insert_room, add_member, remove_member, leave_room, update_member_role,
  rename_room, delete_room,
}
use pairly.Postgres.Files.{
  CreateFileParams, UpdateFileParams, UpdateFolderParams, insert_default_file, create_file,
  update_file, update_folder, toggle_file, toggle_folder, permanent_delete_file,
}
use pairly.Postgres.Files.FilesOnly.{
  insert_default_file-FilesOnly, create_file-FilesOnly, update_file-FilesOnly,
  update_folder-FilesOnly, toggle_file-FilesOnly, toggle_folder-FilesOnly,
  permanent_delete_file-FilesOnly,
}
use pairly.Postgres.Ownership.{
  IsOwned, add_member-IsOwned, remove_member-IsOwned, leave_room-IsOwned,
  update_member_role-IsOwned, rename_room-IsOwned, delete_room-IsOwned, FilesOnly-IsOwned,
  insert_room-IsOwned,
}
use pairly.World.Action.Tables.{KeepsDb}
use pairly.Rooms.MembersHandler.{valid_role}

valid_role-cases : (role : String) → valid_role role ≡ true → (role ≡ "editor") ⊎ (role ≡ "viewer")
valid_role-cases role v = elim (Bool-cases (role == "editor")) [
  | inl e ↦ inl ((string_eq.same_iff role "editor").0 e)
  | inr e ↦ inr ((string_eq.same_iff role "viewer").0 (ground arith))
]

pub add_member-KeepsDb :
    (r u : ℕ) (role : String)
    → valid_role role ≡ true
    → KeepsDb IsOwned (with_role role (add_member r u))
unfolding with_role role_of
add_member-KeepsDb r u role ok = record {
  at = λ db v. elim (valid_role-cases role ok) [
    | inl e ↦ rw e (add_member-IsOwned db v r u editor (ground arith))
    | inr e ↦ rw e (add_member-IsOwned db v r u viewer (ground arith))
  ];
}

pub remove_member-KeepsDb : (r u : ℕ) → KeepsDb IsOwned (remove_member r u)
remove_member-KeepsDb r u = record { at = λ db v. remove_member-IsOwned db v r u }

pub leave_room-KeepsDb : (r u : ℕ) → KeepsDb IsOwned (leave_room r u)
leave_room-KeepsDb r u = record { at = λ db v. leave_room-IsOwned db v r u }

pub update_member_role-KeepsDb :
    (r u : ℕ) (role : String)
    → valid_role role ≡ true
    → KeepsDb IsOwned (with_role role (update_member_role r u))
unfolding with_role role_of
update_member_role-KeepsDb r u role ok = record {
  at = λ db v. elim (valid_role-cases role ok) [
    | inl e ↦ rw e (update_member_role-IsOwned db v r u editor (ground arith))
    | inr e ↦ rw e (update_member_role-IsOwned db v r u viewer (ground arith))
  ];
}

pub rename_room-KeepsDb : (r : ℕ) (name : String) → KeepsDb IsOwned (rename_room r name)
rename_room-KeepsDb r name = record { at = λ db v. rename_room-IsOwned db v r name }

pub delete_room-KeepsDb : (r : ℕ) → KeepsDb IsOwned (delete_room r)
delete_room-KeepsDb r = record { at = λ db v. delete_room-IsOwned db v r }

pub create_file-KeepsDb : (p : CreateFileParams) → KeepsDb IsOwned (create_file p)
create_file-KeepsDb p = record { at = λ db. FilesOnly-IsOwned (create_file-FilesOnly db p) }

pub update_file-KeepsDb : (p : UpdateFileParams) → KeepsDb IsOwned (update_file p)
update_file-KeepsDb p = record { at = λ db. FilesOnly-IsOwned (update_file-FilesOnly db p) }

pub update_folder-KeepsDb : (p : UpdateFolderParams) → KeepsDb IsOwned (update_folder p)
update_folder-KeepsDb p = record { at = λ db. FilesOnly-IsOwned (update_folder-FilesOnly db p) }

pub toggle_file-KeepsDb : (f : ℕ) → KeepsDb IsOwned (toggle_file f)
toggle_file-KeepsDb f = record { at = λ db. FilesOnly-IsOwned (toggle_file-FilesOnly db f) }

pub toggle_folder-KeepsDb : (f : ℕ) → KeepsDb IsOwned (toggle_folder f)
toggle_folder-KeepsDb f = record { at = λ db. FilesOnly-IsOwned (toggle_folder-FilesOnly db f) }

pub permanent_delete_file-KeepsDb : (f : ℕ) → KeepsDb IsOwned (permanent_delete_file f)
permanent_delete_file-KeepsDb f = record {
  at = λ db. FilesOnly-IsOwned (permanent_delete_file-FilesOnly db f);
}

pub insert_room-KeepsDb : (name : String) (u : ℕ) → KeepsDb IsOwned (insert_room name u)
insert_room-KeepsDb name u = record { at = λ db v. insert_room-IsOwned db v name u }

pub insert_default_file-KeepsDb : (r u : ℕ) → KeepsDb IsOwned (insert_default_file r u)
insert_default_file-KeepsDb r u = record {
  at = λ db. FilesOnly-IsOwned (insert_default_file-FilesOnly db r u);
}
