-- ===== src/Postgres/Ownership.antt =====
-- The role of owner, against rooms.owner_id, under the statements of rooms.go and memebers.go.
pub mod Roles
use pairly.Prelude.{
  nat_eq, ℕ, suc, ◌+◌, ◌<◌, ◌≡◌, ◌≢◌, refl, sym, subst, ◌∙◌, String, Bool, true, false, not, Option,
  none, some, List, [], ◌∷◌, ◌++◌, arith, ◌==◌, if◌then◌else◌, find, keep, update, All, All-append,
  All-keep, All-update, All-map, find-append, find-keep_ne, inl, inr, Bool-cases,
}
use pairly.Outcome.{row}
use pairly.Postgres.Schema.{Role, owner, Room, Member, File, Db, is_room, is_membership}
use pairly.Postgres.Statement.{Statement}
use pairly.Postgres.Files.FilesOnly.{FilesOnly}
use pairly.Postgres.Rooms.{
  insert_room, insert_member, add_member, remove_member, leave_room, update_member_role,
  rename_room, delete_room,
}

-- rooms.owner_id of a room
unfoldable pub owner_of : List Room → ℕ → Option ℕ
owner_of rooms id = elim (find (is_room id) rooms) [ none ↦ none | some r ↦ some r.owner_id ]

-- A member with the role of owner is the owner that the room's row names.
abbrev pub IsRightful : List Room → Member → Type 0
IsRightful rooms m = m.role ≡ owner → owner_of rooms m.room_id ≡ some m.user_id

pub record IsOwned (db : Db) : Type 0 where
  pub fresh : All (λ r. r.id < db.next_id) db.rooms
  pub rightful : All (IsRightful db.rooms) db.members

owner_of-append :
    (rooms : List Room) (r : Room) (id u : ℕ)
    → owner_of rooms id ≡ some u
    → owner_of (rooms ++ r ∷ []) id ≡ some u
unfolding owner_of find
owner_of-append [] r id u h = absurd (cc)
owner_of-append (s ∷ rooms) r id u h = ground (arith, owner_of-append rooms r id u)

-- No row has the id of a new room.
owner_of-new :
    (rooms : List Room) (r : Room)
    → All (λ s. s.id < r.id) rooms
    → owner_of (rooms ++ r ∷ []) r.id ≡ some r.owner_id
unfolding owner_of find
owner_of-new [] r h = ground arith
owner_of-new (s ∷ rooms) r h = ground (arith, owner_of-new rooms r h.1)

owner_of-rename :
    (rooms : List Room) (room_id id : ℕ) (name : String)
    → owner_of (update (is_room room_id) (λ r. record r { name = name }) rooms) id
      ≡ owner_of rooms id
unfolding owner_of find update
owner_of-rename [] room_id id name = refl
owner_of-rename (r ∷ rooms) room_id id name = ground (arith, owner_of-rename rooms room_id id name)

owner_of-delete :
    (rooms : List Room) (room_id id : ℕ)
    → id ≢ room_id
    → owner_of (keep (λ r. not (is_room room_id r)) rooms) id ≡ owner_of rooms id
unfolding owner_of find keep
owner_of-delete [] room_id id h = refl
owner_of-delete (r ∷ rooms) room_id id h = ground (arith, owner_of-delete rooms room_id id h)

-- The members of the room that a room's deletion leaves.
IsRightful-delete :
    (rooms : List Room) (room_id : ℕ) (ms : List Member)
    → All (IsRightful rooms) ms
    → All
        (IsRightful (keep (λ r. not (is_room room_id r)) rooms))
        (keep (λ m. not (m.room_id == room_id)) ms)
unfolding keep
IsRightful-delete rooms room_id [] h = tt
IsRightful-delete rooms room_id (m ∷ ms) h = elim (Bool-cases (m.room_id == room_id)) [
  | inl e ↦ rw e (IsRightful-delete rooms room_id ms h.1)
  | inr e ↦ rw e (
    (λ o. owner_of-delete rooms room_id m.room_id (ground arith) ∙ h.0 o),
    IsRightful-delete rooms room_id ms h.1,
  )
]

module _ (db : Db) (v : IsOwned db) where
  with_room :
      (r : Room)
      → r.id ≡ db.next_id
      → IsOwned (record db { rooms = db.rooms ++ r ∷ []; next_id = db.next_id + 1 })
  with_room r e = record {
    fresh =
        All-append _ db.rooms _ (All-map (λ x h. omega arith) db.rooms v.fresh) (omega arith, tt);
    rightful =
        All-map (λ m h o. owner_of-append db.rooms r m.room_id m.user_id (h o)) db.members
          v.rightful;
  }

  pub insert_room-IsOwned : (name : String) (u : ℕ) → IsOwned (insert_room name u db).1
  unfolding insert_room
  insert_room-IsOwned name u = ground (
    arith,
    with_room (record { id = db.next_id; name = name; owner_id = u; created_at = db.now }),
  )

  with_member :
      (m : Member) → m.role ≢ owner → IsOwned (record db { members = db.members ++ m ∷ [] })
  with_member m h = record {
    fresh = v.fresh;
    rightful = All-append (IsRightful db.rooms) db.members _ v.rightful ((λ o. absurd (h o)), tt);
  }

  with_role :
      (room_id user_id : ℕ) (role : Role)
      → role ≢ owner
      → IsOwned (record db {
        members = update (is_membership room_id user_id) (λ m. record m { role = role }) db.members;
      })
  with_role room_id user_id role h = record {
    fresh = v.fresh;
    rightful = All-update (IsRightful db.rooms) _ _ db.members (λ m _ _ o. absurd (h o)) v.rightful;
  }

  pub add_member-IsOwned :
      (room_id user_id : ℕ) (role : Role)
      → role ≢ owner
      → IsOwned (add_member room_id user_id role db).1
  unfolding add_member
  add_member-IsOwned room_id user_id role h = ground (
    arith,
    with_role room_id user_id role h,
    with_member (record { room_id = room_id; user_id = user_id; role = role; joined_at = db.now })
        h,
  )

  pub remove_member-IsOwned : (room_id user_id : ℕ) → IsOwned (remove_member room_id user_id db).1
  unfolding remove_member
  remove_member-IsOwned room_id user_id = record {
    fresh = v.fresh;
    rightful = All-keep (IsRightful db.rooms) _ db.members v.rightful;
  }

  pub leave_room-IsOwned : (room_id user_id : ℕ) → IsOwned (leave_room room_id user_id db).1
  unfolding leave_room
  leave_room-IsOwned room_id user_id = record {
    fresh = v.fresh;
    rightful = All-keep (IsRightful db.rooms) _ db.members v.rightful;
  }

  pub update_member_role-IsOwned :
      (room_id user_id : ℕ) (role : Role)
      → role ≢ owner
      → IsOwned (update_member_role room_id user_id role db).1
  unfolding update_member_role
  update_member_role-IsOwned = with_role

  with_name :
      (room_id : ℕ) (name : String)
      → IsOwned
          (record db { rooms = update (is_room room_id) (λ r. record r { name = name }) db.rooms })
  with_name room_id name = record {
    fresh = All-update _ _ _ db.rooms (λ r _ h. h) v.fresh;
    rightful =
        All-map (λ m h o. owner_of-rename db.rooms room_id m.room_id name ∙ h o) db.members
          v.rightful;
  }

  pub rename_room-IsOwned : (room_id : ℕ) (name : String) → IsOwned (rename_room room_id name db).1
  unfolding rename_room
  rename_room-IsOwned room_id name = ground (arith, with_name room_id name)

  pub delete_room-IsOwned : (room_id : ℕ) → IsOwned (delete_room room_id db).1
  unfolding delete_room
  delete_room-IsOwned room_id = record {
    fresh = All-keep _ _ db.rooms v.fresh;
    rightful = IsRightful-delete db.rooms room_id db.members v.rightful;
  }

-- The tables of rooms and members alone decide it.
pub FilesOnly-IsOwned : {db db' : Db} → FilesOnly db db' → IsOwned db → IsOwned db'
FilesOnly-IsOwned {db} {db'} f v = record {
  fresh = rw f.rooms (All-map (λ r h. omega arith) db.rooms v.fresh);
  rightful = rw (f.rooms, f.members) v.rightful;
}

-- The room that CreateRoom inserts belongs to the user that it names.
pub owner_of-insert_room :
    (db : Db) (v : IsOwned db) (name : String) (u : ℕ) (r : Room)
    → (insert_room name u db).0 ≡ row r
    → owner_of (insert_room name u db).1.rooms r.id ≡ some u
unfolding insert_room
owner_of-insert_room db v name u r e = ground (
  arith,
  owner_of-new db.rooms (record { id = db.next_id; name = name; owner_id = u; created_at = db.now })
      v.fresh,
)

pub insert_owner-IsOwned :
    (db : Db) (v : IsOwned db) (room_id u : ℕ)
    → owner_of db.rooms room_id ≡ some u
    → IsOwned (insert_member room_id u owner db).1
unfolding insert_member
insert_owner-IsOwned db v room_id u e = ground (arith, with_owner)
  where
    m : Member
    m = record { room_id = room_id; user_id = u; role = owner; joined_at = db.now }

    with_owner : IsOwned (record db { members = db.members ++ m ∷ [] })
    with_owner = record {
      fresh = v.fresh;
      rightful = All-append (IsRightful db.rooms) db.members _ v.rightful ((λ o. e), tt);
    }
