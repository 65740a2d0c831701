-- ===== src/Postgres/Rooms.antt =====
-- backend/internal/postgres/rooms.go and memebers.go: rooms and their members.
pub mod Effects
use pairly.Prelude.{
  string_eq, nat_eq, ℕ, ◌+◌, String, Bool, not, ◌&&◌, ◌||◌, Option, none, some, List, [], ◌∷◌, ◌++◌,
  map, ◌==◌, leb, if◌then◌else◌, find, any, keep, update,
}
use pairly.Text.{rune_count}
use pairly.Outcome.{row, failed}
use pairly.Postgres.Schema.{
  Role, owner, editor, viewer, role_eq, User, Room, Member, File, Db, is_user, is_room,
  is_membership,
}
use pairly.Postgres.Statement.{Statement, scan}

-- INSERT INTO rooms
unfoldable pub insert_room : String → ℕ → Statement Room
insert_room name owner_id db =
    if leb 256 (rune_count name) || not (any (is_user owner_id) db.users)
    then (failed, db)
    else (row room, record db { rooms = db.rooms ++ room ∷ []; next_id = db.next_id + 1 })
  where
    room : Room
    room = record { id = db.next_id; name = name; owner_id = owner_id; created_at = db.now }

-- INSERT INTO room_members, with no ON CONFLICT
unfoldable pub insert_member : ℕ → ℕ → Role → Statement (Unit {0})
insert_member room_id user_id role db =
    if any (is_membership room_id user_id) db.members
      || not (any (is_room room_id) db.rooms)
      || not (any (is_user user_id) db.users)
    then (failed, db)
    else (row tt, record db { members = db.members ++ member ∷ [] })
  where
    member : Member
    member = record { room_id = room_id; user_id = user_id; role = role; joined_at = db.now }

pub record RoomWithRole : Type 0 where
  pub room : Room
  pub role : Role

-- ORDER BY created_at DESC
unfoldable pub insert_newest : RoomWithRole → List RoomWithRole → List RoomWithRole
insert_newest r [] = r ∷ []
insert_newest r (s ∷ rest) =
    let later = s ∷ insert_newest r rest in
    if leb s.room.created_at r.room.created_at then r ∷ s ∷ rest else later

-- The rows of rooms JOIN room_members for the user.
unfoldable pub joined_rooms : Db → List Member → ℕ → List RoomWithRole
unfolding insert_newest
joined_rooms db [] user_id = []
joined_rooms db (m ∷ ms) user_id =
    let rest = joined_rooms db ms user_id in
    if m.user_id == user_id
    then elim (find (is_room m.room_id) db.rooms) [
      | none ↦ rest
      | some r ↦ insert_newest (record { room = r; role = m.role }) rest
    ]
    else rest

unfoldable pub list_rooms_for_user : ℕ → Statement (List RoomWithRole)
list_rooms_for_user user_id db = (row (joined_rooms db db.members user_id), db)

unfoldable pub get_member_role : ℕ → ℕ → Statement Role
get_member_role room_id user_id db = (
  scan (elim (find (is_membership room_id user_id) db.members) [
    | none ↦ none
    | some m ↦ some m.role
  ]),
  db,
)

-- SELECT name FROM rooms WHERE id = $1, of which the handlers drop the error.
unfoldable pub get_room_name : ℕ → Statement String
get_room_name room_id db =
    (scan (elim (find (is_room room_id) db.rooms) [ none ↦ none | some r ↦ some r.name ]), db)

-- A text that the database casts to member_role, an enum: it has an error for any other.
unfoldable pub role_of : String → Option Role
role_of text =
    if text == "owner"
    then some owner
    else if text == "editor"
    then some editor
    else if text == "viewer"
    then some viewer
    else none

-- The statement whose role is a parameter.
unfoldable pub with_role : String → (Role → Statement (Unit {0})) → Statement (Unit {0})
with_role text statement db = elim (role_of text) [
  | none ↦ (failed, db)
  | some role ↦ statement role db
]

-- INSERT ... ON CONFLICT (room_id, user_id) DO UPDATE SET role = EXCLUDED.role
unfoldable pub add_member : ℕ → ℕ → Role → Statement (Unit {0})
unfolding insert_member
add_member room_id user_id role db =
    if any (is_membership room_id user_id) db.members
    then (
      row tt,
      record db {
        members = update (is_membership room_id user_id) (λ m. record m { role = role }) db.members;
      },
    )
    else insert_member room_id user_id role db

-- DELETE FROM room_members
unfoldable pub remove_member : ℕ → ℕ → Statement (Unit {0})
remove_member room_id user_id db =
    (row tt, record db { members = keep (λ m. not (is_membership room_id user_id m)) db.members })

unfoldable pub leave_room : ℕ → ℕ → Statement (Unit {0})
leave_room room_id user_id db =
    (row tt, record db { members = keep (λ m. not (is_membership room_id user_id m)) db.members })

unfoldable pub update_member_role : ℕ → ℕ → Role → Statement (Unit {0})
update_member_role room_id user_id role db = (
  row tt,
  record db {
    members = update (is_membership room_id user_id) (λ m. record m { role = role }) db.members;
  },
)

unfoldable pub rename_room : ℕ → String → Statement (Unit {0})
rename_room room_id name db =
    if leb 256 (rune_count name) && any (is_room room_id) db.rooms then (failed, db) else (
      row tt,
      record db { rooms = update (is_room room_id) (λ r. record r { name = name }) db.rooms },
    )

-- What ListMembers returns for one member: JOIN users.
pub record MemberInfo : Type 0 where
  pub user : User
  pub role : Role
  pub joined_at : ℕ

-- ORDER BY joined_at ASC
unfoldable pub insert_oldest : MemberInfo → List MemberInfo → List MemberInfo
insert_oldest m [] = m ∷ []
insert_oldest m (n ∷ rest) =
    let later = n ∷ insert_oldest m rest in
    if leb m.joined_at n.joined_at then m ∷ n ∷ rest else later

unfoldable pub joined_members : Db → List Member → ℕ → List MemberInfo
unfolding insert_oldest
joined_members db [] room_id = []
joined_members db (m ∷ ms) room_id =
    let rest = joined_members db ms room_id in
    if m.room_id == room_id
    then elim (find (is_user m.user_id) db.users) [
      | none ↦ rest
      | some u ↦ insert_oldest (record { user = u; role = m.role; joined_at = m.joined_at }) rest
    ]
    else rest

unfoldable pub list_members : ℕ → Statement (List MemberInfo)
list_members room_id db = (row (joined_members db db.members room_id), db)

unfoldable pub get_room_member_ids : ℕ → Statement (List ℕ)
get_room_member_ids room_id db =
    (row (map (λ m. m.user_id) (keep (λ m. m.room_id == room_id) db.members)), db)

-- ON DELETE SET NULL of files.parent_id
abbrev pub clear_parent : (ℕ → Bool) → File → File
clear_parent gone f = record f {
  parent_id = elim f.parent_id [ none ↦ none | some p ↦ if gone p then none else some p ];
}

-- DELETE FROM rooms; room_members and files go by ON DELETE CASCADE, and a file of another room
-- that lay under one of the deleted files loses its parent.
unfoldable pub delete_room : ℕ → Statement (Unit {0})
delete_room room_id db = (
  row tt,
  record db {
    rooms = keep (λ r. not (is_room room_id r)) db.rooms;
    members = keep (λ m. not (m.room_id == room_id)) db.members;
    files =
        map (clear_parent (λ id. any (λ f. f.id == id && f.room_id == room_id) db.files))
          (keep (λ f. not (f.room_id == room_id)) db.files);
  },
)
