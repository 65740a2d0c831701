-- ===== src/Rooms/RoomsHandler.antt =====
-- backend/internal/rooms/rooms_handler.go
use pairly.Prelude.{nat_eq, ℕ, String, Bool, not, ◌&&◌, Option, map, leb, ◌==◌}
use pairly.Text.{rune_count, trim_space}
use pairly.Outcome.{row}
use pairly.Postgres.Schema.{Role, role_eq, owner, Room}
use pairly.Postgres.Rooms.{
  insert_room, insert_member, list_rooms_for_user, get_room_name, delete_room, rename_room,
  leave_room,
}
use pairly.Postgres.Files.{insert_default_file}
use pairly.Mongo.Documents.{create_document, delete_documents_by_room}
use pairly.Mongo.Snapshots.{delete_snapshots_by_room}
use pairly.World.Env.{Env}
use pairly.World.Message.{Response, respond, Body, RoomResponse, Event}
use pairly.World.State.{World, Call, query, mongo, and_then, transaction}
use pairly.World.Action.{Action, pure, attempt, ignoring, modify, stop_if, ◌>>=◌, ◌>>◌}
use pairly.Rooms.Shared.{
  fail, said, bind, member_role, publish_permission, publish_notification_to_members,
}

-- createRoomRequest and renameRoomRequest: binding:"required,min=1,max=100"
pub record NameRequest : Type 0 where
  pub name : String

unfoldable pub valid_name : NameRequest → Bool
valid_name req = leb 1 (rune_count req.name) && leb (rune_count req.name) 100

-- The statements of pg.CreateRoom: the room, its owner as a member, and main.py.
abbrev pub create_room_body : String → ℕ → Call (Room × ℕ)
create_room_body name owner_id = and_then (query (insert_room name owner_id)) λ r.
    and_then (query (insert_member r.id owner_id owner))
      λ _. and_then (query (insert_default_file r.id owner_id)) λ file_id w. (row (r, file_id), w)

-- pg.CreateRoom, in one transaction.
unfoldable pub create_room_call : String → ℕ → Call (Room × ℕ)
create_room_call name owner_id = transaction (create_room_body name owner_id)

unfoldable pub save_new_document : ℕ → ℕ → World → Unit {0} × World
save_new_document file_id room_id w =
    (tt, record w { documents = create_document w.db.now file_id room_id w.documents })

module _ (env : Env) where
  abbrev pub room_response : Room → Role → RoomResponse
  room_response r role = record {
    id = r.id;
    name = r.name;
    owner_id = r.owner_id;
    role = role;
    created_at = env.format_time r.created_at;
  }

  -- CreateRoom
  unfoldable pub create_room : ℕ → Option NameRequest → Action Response
  create_room user_id body = do
    req ← bind valid_name body
    created ←
        attempt (fail 500 "could not create room") (create_room_call (trim_space req.name) user_id)
    attempt (fail 500 "could not create document")
        (mongo (save_new_document created.1 created.0.id))
    pure (respond 201 (Body.room_created (room_response created.0 owner) created.1))

  -- ListRooms
  unfoldable pub list_rooms : ℕ → Action Response
  list_rooms user_id = do
    found ← attempt (fail 500 "could not list rooms") (query (list_rooms_for_user user_id))
    pure (respond 200 (Body.rooms (map (λ r. room_response r.room r.role) found)))

-- GetRole
unfoldable pub get_role : ℕ → ℕ → Action Response
get_role room_id user_id = do
  role ← member_role "not a member of this room" room_id user_id
  name ← ignoring "" (query (get_room_name room_id))
  pure (respond 200 (Body.role_and_name role name))

unfoldable pub drop_documents : ℕ → World → Unit {0} × World
drop_documents room_id w =
    (tt, record w { documents = delete_documents_by_room room_id w.documents })

unfoldable pub drop_snapshots : ℕ → World → Unit {0} × World
drop_snapshots room_id w =
    (tt, record w { snapshots = delete_snapshots_by_room room_id w.snapshots })

-- DeleteRoom
unfoldable pub delete_room_handler : ℕ → ℕ → Action Response
delete_room_handler room_id user_id = do
  name ← ignoring "" (query (get_room_name room_id))
  role ← member_role "not a member" room_id user_id
  stop_if (not (role == owner)) (fail 403 "only owner can delete the room")
  modify (publish_notification_to_members room_id (Event.notify_room_deleted room_id name))
  attempt (fail 500 "could not delete documents") (mongo (drop_documents room_id))
  ignoring tt (mongo (drop_snapshots room_id))
  attempt (fail 500 "could not delete room") (query (delete_room room_id))
  modify (publish_permission room_id Event.room_deleted)
  pure (said "room deleted")

-- RenameRoom
unfoldable pub rename_room_handler : ℕ → ℕ → Option NameRequest → Action Response
rename_room_handler room_id user_id body = do
  req ← bind valid_name body
  role ← member_role "not a member" room_id user_id
  stop_if (not (role == owner)) (fail 403 "only owner can rename the room")
  let name = trim_space req.name
  attempt (fail 500 "could not rename room") (query (rename_room room_id name))
  modify (publish_permission room_id (Event.room_renamed name))
  modify (publish_notification_to_members room_id (Event.notify_room_renamed room_id name))
  pure (respond 200 (Body.room_renamed name))

-- LeaveRoom
unfoldable pub leave_room_handler : ℕ → ℕ → Action Response
leave_room_handler room_id user_id = do
  role ← member_role "not a member" room_id user_id
  stop_if (role == owner) (fail 403 "owner cannot leave — delete the room or transfer ownership")
  attempt (fail 500 "could not leave room") (query (leave_room room_id user_id))
  modify (publish_permission room_id (Event.member_left user_id))
  pure (said "left room")
