-- ===== src/Rooms/Shared/Reads.antt =====
-- The statements that only read the tables.
use pairly.Prelude.{ℕ, String, Bool, refl, arith}
use pairly.Postgres.Users.{get_user_by_email}
use pairly.Postgres.Rooms.{
  list_rooms_for_user, get_member_role, get_room_name, list_members, get_room_member_ids,
}
use pairly.Postgres.Files.{get_files_for_room, get_file_by_id, get_file_descendant_ids}
use pairly.World.Action.Tables.{ReadOnly}

pub get_user_by_email-ReadOnly : (e : String) → ReadOnly (get_user_by_email e)
unfolding get_user_by_email
get_user_by_email-ReadOnly e = record { at = λ db. refl }

pub list_rooms_for_user-ReadOnly : (u : ℕ) → ReadOnly (list_rooms_for_user u)
unfolding list_rooms_for_user
list_rooms_for_user-ReadOnly u = record { at = λ db. refl }

pub get_member_role-ReadOnly : (r u : ℕ) → ReadOnly (get_member_role r u)
unfolding get_member_role
get_member_role-ReadOnly r u = record { at = λ db. refl }

pub get_room_name-ReadOnly : (r : ℕ) → ReadOnly (get_room_name r)
unfolding get_room_name
get_room_name-ReadOnly r = record { at = λ db. refl }

pub list_members-ReadOnly : (r : ℕ) → ReadOnly (list_members r)
unfolding list_members
list_members-ReadOnly r = record { at = λ db. refl }

pub get_room_member_ids-ReadOnly : (r : ℕ) → ReadOnly (get_room_member_ids r)
unfolding get_room_member_ids
get_room_member_ids-ReadOnly r = record { at = λ db. refl }

pub get_files_for_room-ReadOnly :
    (le : String → String → Bool) (r : ℕ) → ReadOnly (get_files_for_room le r)
unfolding get_files_for_room
get_files_for_room-ReadOnly le r = record { at = λ db. refl }

pub get_file_by_id-ReadOnly : (f : ℕ) → ReadOnly (get_file_by_id f)
unfolding get_file_by_id
get_file_by_id-ReadOnly f = record { at = λ db. refl }

pub get_file_descendant_ids-ReadOnly : (f : ℕ) → ReadOnly (get_file_descendant_ids f)
unfolding get_file_descendant_ids
get_file_descendant_ids-ReadOnly f = record { at = λ db. ground arith }

pub ruleset reads = (
  get_user_by_email-ReadOnly, list_rooms_for_user-ReadOnly, get_member_role-ReadOnly,
  get_room_name-ReadOnly, list_members-ReadOnly, get_room_member_ids-ReadOnly,
  get_files_for_room-ReadOnly, get_file_by_id-ReadOnly, get_file_descendant_ids-ReadOnly,
)
