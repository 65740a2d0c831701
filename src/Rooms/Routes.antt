-- ===== src/Rooms/Routes.antt =====
-- RegisterRoutes of backend/internal/rooms/handler.go: a request that RequireAuth let through, with
-- the path's ids and the body, and the handler that it goes to.
use pairly.Prelude.{ℕ, String, Option}
use pairly.Mongo.Documents.{Bytes}
use pairly.World.Env.{Env}
use pairly.World.Message.{Response}
use pairly.World.Action.{Action}
use pairly.Rooms.RoomsHandler.{
  NameRequest, create_room, list_rooms, get_role, delete_room_handler, rename_room_handler,
  leave_room_handler,
}
use pairly.Rooms.MembersHandler.{
  AddMemberRequest, add_member_handler, list_members_handler, remove_member_handler,
  update_member_role_handler,
}
use pairly.Rooms.FilesHandler.{
  CreateFileRequest, UpdateFileRequest, get_files, create_file_handler, update_file_handler,
  toggle_file_handler, permanent_delete_handler,
}
use pairly.Rooms.StateHandler.{save_state, load_state, get_last_execution_handler}
use pairly.Rooms.HistoryHandler.{get_history, get_history_at_version}

-- The first number is the room, the second the file or the member that the path names.
pub data Request : Type 0 where
  post_room : Option NameRequest → Request
  list : Request
  role delete leave : ℕ → Request
  rename : ℕ → Option NameRequest → Request
  files : ℕ → Request
  post_file : ℕ → Option CreateFileRequest → Request
  patch_file : ℕ → ℕ → Option UpdateFileRequest → Request
  toggle permanent : ℕ → ℕ → Request
  post_state : ℕ → ℕ → Option Bytes → Request
  get_state : ℕ → ℕ → Request
  history : ℕ → ℕ → Request
  history_at : ℕ → ℕ → Option ℕ → Request
  post_member : ℕ → Option AddMemberRequest → Request
  members : ℕ → Request
  delete_member : ℕ → ℕ → Request
  patch_member : ℕ → ℕ → Option String → Request
  execution : ℕ → ℕ → Request

-- The handler of a request of the user.
unfoldable pub handle : Env → ℕ → Request → Action Response
handle env user (post_room body) = create_room env user body
handle env user list = list_rooms env user
handle env user (role room) = get_role room user
handle env user (delete room) = delete_room_handler room user
handle env user (rename room body) = rename_room_handler room user body
handle env user (leave room) = leave_room_handler room user
handle env user (files room) = get_files env room user
handle env user (post_file room body) = create_file_handler env room user body
handle env user (patch_file room file body) = update_file_handler env room file user body
handle env user (toggle room file) = toggle_file_handler env room file user
handle env user (permanent room file) = permanent_delete_handler env room file user
handle env user (post_state room file body) = save_state env room file user body
handle env user (get_state room file) = load_state room file user
handle env user (history room file) = get_history room file user
handle env user (history_at room file version) = get_history_at_version env room file user version
handle env user (post_member room body) = add_member_handler env room user body
handle env user (members room) = list_members_handler room user
handle env user (delete_member room target) = remove_member_handler room target user
handle env user (patch_member room target body) = update_member_role_handler room target user body
handle env user (execution room file) = get_last_execution_handler room file user
