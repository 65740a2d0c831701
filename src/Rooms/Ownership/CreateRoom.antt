-- ===== src/Rooms/Ownership/CreateRoom.antt =====
-- The transaction of CreateRoom keeps the owners rightful.
use pairly.Prelude.{nat_eq, ℕ, ◌≡◌, String, some}
use pairly.Outcome.{row}
use pairly.Postgres.Schema.{owner, Room}
use pairly.Postgres.Rooms.{insert_room, insert_member}
use pairly.Postgres.Files.{insert_default_file}
use pairly.Postgres.Ownership.{
  IsOwned, insert_room-IsOwned, insert_owner-IsOwned, owner_of, owner_of-insert_room,
}
use pairly.World.State.{World, query, and_then}
use pairly.World.Action.Keeps.{KeepsCall}
use pairly.World.Action.Tables.{OfDb, transaction-KeepsCall, and_then-OfDb, query-OfDb, query-row}
use pairly.Rooms.RoomsHandler.{create_room_call}
use pairly.Rooms.Invariants.{IsKept}
use pairly.Rooms.Ownership.Statements.{
  insert_default_file-KeepsDb, add_member-KeepsDb, remove_member-KeepsDb, leave_room-KeepsDb,
  update_member_role-KeepsDb, rename_room-KeepsDb, delete_room-KeepsDb, create_file-KeepsDb,
  update_file-KeepsDb, update_folder-KeepsDb, toggle_file-KeepsDb, toggle_folder-KeepsDb,
  permanent_delete_file-KeepsDb,
}

-- The default file, and the owner before it, where the room is the user's.
default_file-IsOwned :
    (r : Room) (u : ℕ) (w : World)
    → IsOwned w.db
    → OfDb IsOwned
        (and_then {B = Room × ℕ}
          (query (insert_default_file r.id u))
          (λ file_id w'. (row (r, file_id), w'))
          w).1
default_file-IsOwned r u w v =
    let kept =
      query-OfDb (insert_default_file r.id u) w v
        ((insert_default_file-KeepsDb r.id u).at w.db v) in
    and_then-OfDb _ _ w kept (λ _ _. kept)

owner_row-IsOwned :
    (r : Room) (u : ℕ) (w : World)
    → IsOwned w.db
    → owner_of w.db.rooms r.id ≡ some u
    → OfDb IsOwned
        (and_then {B = Room × ℕ}
          (query (insert_member r.id u owner))
          (λ _.
            and_then {B = Room × ℕ}
              (query (insert_default_file r.id u))
              (λ file_id w'. (row (r, file_id), w')))
          w).1
owner_row-IsOwned r u w v e =
    let kept = query-OfDb (insert_member r.id u owner) w v (insert_owner-IsOwned w.db v r.id u e) in
    and_then-OfDb _ _ w kept (λ _ _. default_file-IsOwned r u _ kept.tables)

pub create_room_call-KeepsCall :
    (name : String) (u : ℕ) → KeepsCall (OfDb IsOwned) (create_room_call name u)
unfolding create_room_call
create_room_call-KeepsCall name u = transaction-KeepsCall _ (record {
  at = λ w h.
      let kept =
        query-OfDb (insert_room name u) w h.tables (insert_room-IsOwned w.db h.tables name u) in
      and_then-OfDb _ _ w kept (λ r e.
        let (row_e, db_e) = query-row (insert_room name u) w r e in
        owner_row-IsOwned r u _ kept.tables
          (rw db_e (owner_of-insert_room w.db h.tables name u r row_e)));
})

-- The role of owner stays with the user that the room's row names, whichever statement runs.
pub IsOwned-IsKept : IsKept IsOwned
IsOwned-IsKept = record {
  by_create_room = create_room_call-KeepsCall;
  by_add_member = add_member-KeepsDb;
  by_remove_member = remove_member-KeepsDb;
  by_leave_room = leave_room-KeepsDb;
  by_update_member_role = update_member_role-KeepsDb;
  by_rename_room = rename_room-KeepsDb;
  by_delete_room = delete_room-KeepsDb;
  by_create_file = create_file-KeepsDb;
  by_update_file = update_file-KeepsDb;
  by_update_folder = update_folder-KeepsDb;
  by_toggle_file = toggle_file-KeepsDb;
  by_toggle_folder = toggle_folder-KeepsDb;
  by_permanent_delete_file = permanent_delete_file-KeepsDb;
}
