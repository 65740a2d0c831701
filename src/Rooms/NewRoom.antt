-- ===== src/Rooms/NewRoom.antt =====
-- What the transaction of CreateRoom has written when it returns a room.
use pairly.Prelude.{
  nat_eq, ℕ, ◌+◌, ◌≡◌, ap, sym, ◌∙◌, String, true, false, none, [], ◌∷◌, ◌++◌, arith, inl, inr,
}
use pairly.Outcome.{row}
use pairly.Postgres.Schema.{owner, Db, Room, Member, File}
use pairly.Postgres.Rooms.{insert_room, insert_member}
use pairly.Postgres.Files.{insert_default_file, create_file}
use pairly.World.State.{World, Call, query, and_then, called}
use pairly.World.State.Atomic.{is_row-cases, transaction_atomic}
use pairly.World.Action.Tables.{query-row}
use pairly.Rooms.RoomsHandler.{create_room_body, create_room_call}

-- The row of the new room, of its owner, and of main.py.
abbrev pub new_room : String → ℕ → Db → Room
new_room name user db = record {
  id = db.next_id;
  name = name;
  owner_id = user;
  created_at = db.now;
}

abbrev pub new_owner : ℕ → Db → Member
new_owner user db = record {
  room_id = db.next_id;
  user_id = user;
  role = owner;
  joined_at = db.now;
}

abbrev pub main_py : ℕ → Db → File
main_py user db = record {
  id = db.next_id + 1;
  room_id = db.next_id;
  name = "main.py";
  language = "python";
  parent_id = none;
  is_folder = false;
  is_active = true;
  created_by = user;
  created_at = db.now;
  updated_at = none;
}

abbrev pub with_new_room : String → ℕ → Db → Db
with_new_room name user db = record db {
  rooms = db.rooms ++ new_room name user db ∷ [];
  members = db.members ++ new_owner user db ∷ [];
  files = db.files ++ main_py user db ∷ [];
  next_id = db.next_id + 1 + 1;
}

and_then-row :
    {A B : Type 0} (m : Call A) (f : A → Call B) (w : World) (b : B)
    → (and_then m f w).0 ≡ row b
    → (a : A) × ((m w).0 ≡ row a) × (and_then m f w ≡ f a (m w).1)
unfolding and_then
and_then-row {A} {B} m f w b e = elim (is_row-cases (m w).0) [
  | inl (a, q) ↦ (a, q, ground arith)
  | inr (inl q) ↦ absurd (ground arith)
  | inr (inr (inl q)) ↦ absurd (ground arith)
  | inr (inr (inr q)) ↦ absurd (ground arith)
]

insert_room-row :
    (name : String) (u : ℕ) (db : Db) (r : Room)
    → (insert_room name u db).0 ≡ row r
    → (r ≡ new_room name u db)
      × ((insert_room name u db).1
          ≡ record db { rooms = db.rooms ++ new_room name u db ∷ []; next_id = db.next_id + 1 })
unfolding insert_room
insert_room-row name u db r e = ground arith

insert_member-row :
    (room u : ℕ) (db : Db)
    → (insert_member room u owner db).0 ≡ row tt
    → (insert_member room u owner db).1 ≡ record db {
      members =
          db.members
          ++ record { room_id = room; user_id = u; role = owner; joined_at = db.now } ∷ [];
    }
unfolding insert_member
insert_member-row room u db e = ground arith

default_file : ℕ → ℕ → Db → File
default_file room u db = record {
  id = db.next_id;
  room_id = room;
  name = "main.py";
  language = "python";
  parent_id = none;
  is_folder = false;
  is_active = true;
  created_by = u;
  created_at = db.now;
  updated_at = none;
}

insert_default_file-row :
    (room u : ℕ) (db : Db) (id : ℕ)
    → (insert_default_file room u db).0 ≡ row id
    → (id ≡ db.next_id)
      × ((insert_default_file room u db).1
          ≡ record db { files = db.files ++ default_file room u db ∷ []; next_id = db.next_id + 1 })
unfolding insert_default_file create_file default_file
insert_default_file-row room u db id e = ground arith

abbrev with_default_file : ℕ → ℕ → Db → Db
with_default_file room u db = record db {
  files = db.files ++ default_file room u db ∷ [];
  next_id = db.next_id + 1;
}

abbrev with_owner : ℕ → ℕ → Db → Db
with_owner room u db = record db {
  members =
      db.members ++ record { room_id = room; user_id = u; role = owner; joined_at = db.now } ∷ [];
}

-- The calls of the body from the last to the first, where they returned a row.
default_file_call : Room → ℕ → Call (Room × ℕ)
default_file_call r u =
    and_then (query (insert_default_file r.id u)) λ file_id w. (row (r, file_id), w)

default_file_call-row :
    (r : Room) (u : ℕ) (w : World) (out : Room × ℕ)
    → (default_file_call r u w).0 ≡ row out
    → (out ≡ (r, w.db.next_id)) × ((default_file_call r u w).1.db ≡ with_default_file r.id u w.db)
unfolding default_file_call
default_file_call-row r u w out e =
    let (id, q, f) = and_then-row (query (insert_default_file r.id u)) _ w out e in
    let (ran, d) = query-row (insert_default_file r.id u) w id q in
    let (s, t) = insert_default_file-row r.id u w.db id ran in
    (ground arith, ap (λ p. p.1.db) f ∙ d ∙ t)

owner_call : Room → ℕ → Call (Room × ℕ)
owner_call r u = and_then (query (insert_member r.id u owner)) λ _. default_file_call r u

owner_call-row :
    (r : Room) (u : ℕ) (w : World) (out : Room × ℕ)
    → (owner_call r u w).0 ≡ row out
    → (out ≡ (r, w.db.next_id))
      × ((owner_call r u w).1.db ≡ with_default_file r.id u (with_owner r.id u w.db))
unfolding owner_call
owner_call-row r u w out e =
    let (done, q, f) = and_then-row (query (insert_member r.id u owner)) _ w out e in
    let (ran, d) = query-row (insert_member r.id u owner) w done q in
    let db : (query (insert_member r.id u owner) w).1.db ≡ with_owner r.id u w.db =
      d ∙ insert_member-row r.id u w.db ran in
    let (s, t) =
      default_file_call-row r u (query (insert_member r.id u owner) w).1 out
        (sym (ap (λ p. p.0) f) ∙ e) in
    (
      s ∙ ap (λ (x : Db). (r, x.next_id)) db,
      ap (λ p. p.1.db) f ∙ t ∙ ap (with_default_file r.id u) db,
    )

body-row :
    (name : String) (u : ℕ) (w : World) (out : Room × ℕ)
    → (create_room_body name u w).0 ≡ row out
    → (out ≡ (new_room name u w.db, w.db.next_id + 1))
      × ((create_room_body name u w).1.db ≡ with_new_room name u w.db)
unfolding owner_call default_file_call default_file
body-row name u w out e =
    let (r, q, f) = and_then-row (query (insert_room name u)) (λ r. owner_call r u) w out e in
    let (ran, d) = query-row (insert_room name u) w r q in
    let (room, t) = insert_room-row name u w.db r ran in
    let (s, rest) =
      owner_call-row r u (query (insert_room name u) w).1 out (sym (ap (λ p. p.0) f) ∙ e) in
    (
      s ∙ ap (λ (x : Db). (r, x.next_id)) (d ∙ t) ∙ ap (λ (x : Room). (x, w.db.next_id + 1)) room,
      ap (λ p. p.1.db) f
          ∙ rest
          ∙ ap (λ (x : Db). with_default_file r.id u (with_owner r.id u x)) (d ∙ t)
          ∙ ap
              (λ (x : Room). with_default_file x.id u (
                with_owner x.id u (record w.db {
                  rooms = w.db.rooms ++ new_room name u w.db ∷ [];
                  next_id = w.db.next_id + 1;
                })))
              room,
    )

-- When CreateRoom's transaction returns a room and a file id, the room is a new row of the
-- caller's, the tables have grown by exactly that row, the caller as its owner, and an active
-- main.py of language python at the top, which is the file returned.
pub create_room_call-row :
    (name : String) (u : ℕ) (w : World) (r : Room) (id : ℕ)
    → (create_room_call name u w).0 ≡ row (r, id)
    → (r ≡ new_room name u w.db)
      × (id ≡ w.db.next_id + 1)
      × ((create_room_call name u w).1.db ≡ with_new_room name u w.db)
unfolding create_room_call
create_room_call-row name u w r id e = elim (transaction_atomic (create_room_body name u) w) [
  | inl (is, same, db) ↦
      let (out, tables) = body-row name u (called w) (r, id) (sym same ∙ e) in
      (ap (λ p. p.0) out, ap (λ p. p.1) out, db ∙ tables)
  | inr (not_row, db) ↦ absurd (ground arith)
]
