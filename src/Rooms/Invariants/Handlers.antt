-- ===== src/Rooms/Invariants/Handlers.antt =====
-- What the statements keep, every handler keeps.
use pairly.Prelude.{arith, nat_eq, ℕ, String, Option, none, some}
use pairly.Postgres.Schema.{Db}
use pairly.World.Env.{Env}
use pairly.Mongo.Documents.{Bytes}
use pairly.World.Action.Keeps.{Keeps}
use pairly.World.Action.Tables.{OfDb}
use pairly.Rooms.RoomsHandler.{
  NameRequest, create_room, list_rooms, get_role, delete_room_handler, rename_room_handler,
  leave_room_handler,
}
use pairly.Rooms.MembersHandler.{
  AddMemberRequest, add_member_handler, list_members_handler, remove_member_handler,
  update_member_role_handler,
}
use pairly.Rooms.FilesHandler.{
  CreateFileRequest, UpdateFileRequest, get_files, create_file_handler, update_file_handler,
  toggle_file_handler, permanent_delete_handler,
}
use pairly.Rooms.StateHandler.{
  save_state, read_state, save_changed, load_state, get_last_execution_handler,
}
use pairly.Rooms.HistoryHandler.{get_history, get_history_at_version, read_version, answer_version}
use pairly.Mongo.Snapshots.{FileSnapshot}
use pairly.Rooms.Routes.{Request, post_room, handle}
use pairly.Postgres.Rooms.{remove_member, leave_room, rename_room, delete_room}
use pairly.Postgres.Files.{
  CreateFileParams, UpdateFileParams, UpdateFolderParams, create_file, update_file, update_folder,
  toggle_file, toggle_folder, permanent_delete_file,
}
use pairly.World.Action.Keeps.{KeepsCall, keeps_rules}
use pairly.World.Action.Tables.{KeepsDb, KeepsCall-query, ReadOnly-KeepsDb}
use pairly.Rooms.RoomsHandler.{create_room_call}
use pairly.Rooms.MembersHandler.{valid_add_member, valid_role}
use pairly.Rooms.Shared.Reads.{reads}
use pairly.Rooms.Shared.Keeps.{shared_rules, Keeps-valid_request}
use pairly.Rooms.Invariants.{IsKept}
use pairly.Rooms.Invariants.Writes.{leaves}

module _ {I : Db → Type 0} (k : IsKept I) where
  create_room_call-KeepsCall :
      (name : String) (u : ℕ) → KeepsCall (OfDb I) (create_room_call name u)
  create_room_call-KeepsCall = k.by_create_room

  remove_member-KeepsDb : (r u : ℕ) → KeepsDb I (remove_member r u)
  remove_member-KeepsDb = k.by_remove_member

  leave_room-KeepsDb : (r u : ℕ) → KeepsDb I (leave_room r u)
  leave_room-KeepsDb = k.by_leave_room

  rename_room-KeepsDb : (r : ℕ) (name : String) → KeepsDb I (rename_room r name)
  rename_room-KeepsDb = k.by_rename_room

  delete_room-KeepsDb : (r : ℕ) → KeepsDb I (delete_room r)
  delete_room-KeepsDb = k.by_delete_room

  create_file-KeepsDb : (p : CreateFileParams) → KeepsDb I (create_file p)
  create_file-KeepsDb = k.by_create_file

  update_file-KeepsDb : (p : UpdateFileParams) → KeepsDb I (update_file p)
  update_file-KeepsDb = k.by_update_file

  update_folder-KeepsDb : (p : UpdateFolderParams) → KeepsDb I (update_folder p)
  update_folder-KeepsDb = k.by_update_folder

  toggle_file-KeepsDb : (f : ℕ) → KeepsDb I (toggle_file f)
  toggle_file-KeepsDb = k.by_toggle_file

  toggle_folder-KeepsDb : (f : ℕ) → KeepsDb I (toggle_folder f)
  toggle_folder-KeepsDb = k.by_toggle_folder

  permanent_delete_file-KeepsDb : (f : ℕ) → KeepsDb I (permanent_delete_file f)
  permanent_delete_file-KeepsDb = k.by_permanent_delete_file

ruleset handler_steps = (
  keeps_rules, shared_rules, leaves, KeepsCall-query, ReadOnly-KeepsDb, reads,
  create_room_call-KeepsCall, remove_member-KeepsDb, leave_room-KeepsDb, rename_room-KeepsDb,
  delete_room-KeepsDb, create_file-KeepsDb, update_file-KeepsDb, update_folder-KeepsDb,
  toggle_file-KeepsDb, toggle_folder-KeepsDb, permanent_delete_file-KeepsDb,
)

module _ {I : Db → Type 0} (k : IsKept I) where
  create_room-Keeps :
      (env : Env) (u : ℕ) (body : Option NameRequest) → Keeps (OfDb I) (create_room env u body)
  unfolding create_room
  create_room-Keeps env u body = search handler_steps depth 20

  list_rooms-Keeps : (env : Env) (u : ℕ) → Keeps (OfDb I) (list_rooms env u)
  unfolding list_rooms
  list_rooms-Keeps env u = search handler_steps depth 20

  get_role-Keeps : (r u : ℕ) → Keeps (OfDb I) (get_role r u)
  unfolding get_role
  get_role-Keeps r u = search handler_steps depth 20

  delete_room_handler-Keeps : (r u : ℕ) → Keeps (OfDb I) (delete_room_handler r u)
  unfolding delete_room_handler
  delete_room_handler-Keeps r u = search handler_steps depth 20

  rename_room_handler-Keeps :
      (r u : ℕ) (body : Option NameRequest) → Keeps (OfDb I) (rename_room_handler r u body)
  unfolding rename_room_handler
  rename_room_handler-Keeps r u body = search handler_steps depth 20

  leave_room_handler-Keeps : (r u : ℕ) → Keeps (OfDb I) (leave_room_handler r u)
  unfolding leave_room_handler
  leave_room_handler-Keeps r u = search handler_steps depth 20

  add_member_handler-Keeps :
      (env : Env) (r u : ℕ) (body : Option AddMemberRequest)
      → Keeps (OfDb I) (add_member_handler env r u body)
  unfolding add_member_handler valid_add_member
  add_member_handler-Keeps env r u body = Keeps-valid_request (valid_add_member env) body _ λ req v.
      let added = λ (t : ℕ). k.by_add_member r t req.role (ground arith) in
      search (handler_steps, added) depth 20

  list_members_handler-Keeps : (r u : ℕ) → Keeps (OfDb I) (list_members_handler r u)
  unfolding list_members_handler
  list_members_handler-Keeps r u = search handler_steps depth 20

  remove_member_handler-Keeps : (r t u : ℕ) → Keeps (OfDb I) (remove_member_handler r t u)
  unfolding remove_member_handler
  remove_member_handler-Keeps r t u = search handler_steps depth 20

  update_member_role_handler-Keeps :
      (r t u : ℕ) (body : Option String) → Keeps (OfDb I) (update_member_role_handler r t u body)
  unfolding update_member_role_handler
  update_member_role_handler-Keeps r t u body = Keeps-valid_request valid_role body _ λ req v.
      let changed = k.by_update_member_role r t req v in search (handler_steps, changed) depth 20

  get_files-Keeps : (env : Env) (r u : ℕ) → Keeps (OfDb I) (get_files env r u)
  unfolding get_files
  get_files-Keeps env r u = search handler_steps depth 20

  create_file_handler-Keeps :
      (env : Env) (r u : ℕ) (body : Option CreateFileRequest)
      → Keeps (OfDb I) (create_file_handler env r u body)
  unfolding create_file_handler
  create_file_handler-Keeps env r u body = search handler_steps depth 20

  update_file_handler-Keeps :
      (env : Env) (r f u : ℕ) (body : Option UpdateFileRequest)
      → Keeps (OfDb I) (update_file_handler env r f u body)
  unfolding update_file_handler
  update_file_handler-Keeps env r f u body = search handler_steps depth 20

  toggle_file_handler-Keeps :
      (env : Env) (r f u : ℕ) → Keeps (OfDb I) (toggle_file_handler env r f u)
  unfolding toggle_file_handler
  toggle_file_handler-Keeps env r f u = search handler_steps depth 20

  permanent_delete_handler-Keeps :
      (env : Env) (r f u : ℕ) → Keeps (OfDb I) (permanent_delete_handler env r f u)
  unfolding permanent_delete_handler
  permanent_delete_handler-Keeps env r f u = search handler_steps depth 20

  Keeps-read_state : (body : Option Bytes) → Keeps (OfDb I) (read_state body)
  unfolding read_state
  Keeps-read_state none = record { at = λ w h. h }
  Keeps-read_state (some bytes) = record { at = λ w h. h }

  save_changed-Keeps :
      (r f u : ℕ) (s : Bytes) (t : String) → Keeps (OfDb I) (save_changed r f u s t)
  unfolding save_changed
  save_changed-Keeps r f u s t = search handler_steps depth 20

  save_state-Keeps :
      (env : Env) (r f u : ℕ) (body : Option Bytes) → Keeps (OfDb I) (save_state env r f u body)
  unfolding save_state
  save_state-Keeps env r f u body =
      search (handler_steps, Keeps-read_state, save_changed-Keeps) depth 20

  load_state-Keeps : (r f u : ℕ) → Keeps (OfDb I) (load_state r f u)
  unfolding load_state
  load_state-Keeps r f u = search handler_steps depth 20

  get_last_execution_handler-Keeps : (r f u : ℕ) → Keeps (OfDb I) (get_last_execution_handler r f u)
  unfolding get_last_execution_handler
  get_last_execution_handler-Keeps r f u = search handler_steps depth 20

  get_history-Keeps : (r f u : ℕ) → Keeps (OfDb I) (get_history r f u)
  unfolding get_history
  get_history-Keeps r f u = search handler_steps depth 20

  Keeps-read_version : (v : Option ℕ) → Keeps (OfDb I) (read_version v)
  unfolding read_version
  Keeps-read_version none = record { at = λ w h. h }
  Keeps-read_version (some v) = record { at = λ w h. h }

  answer_version-Keeps :
      (env : Env) (r f v : ℕ) (s : Option FileSnapshot)
      → Keeps (OfDb I) (answer_version env r f v s)
  unfolding answer_version
  answer_version-Keeps env r f v none = search handler_steps depth 20
  answer_version-Keeps env r f v (some s) = search handler_steps depth 20

  get_history_at_version-Keeps :
      (env : Env) (r f u : ℕ) (v : Option ℕ) → Keeps (OfDb I) (get_history_at_version env r f u v)
  unfolding get_history_at_version
  get_history_at_version-Keeps env r f u v =
      search (handler_steps, Keeps-read_version, answer_version-Keeps) depth 20

ruleset handler_rules = (
  create_room-Keeps, list_rooms-Keeps, get_role-Keeps, delete_room_handler-Keeps,
  rename_room_handler-Keeps, leave_room_handler-Keeps, add_member_handler-Keeps,
  list_members_handler-Keeps, remove_member_handler-Keeps, update_member_role_handler-Keeps,
  get_files-Keeps, create_file_handler-Keeps, update_file_handler-Keeps, toggle_file_handler-Keeps,
  permanent_delete_handler-Keeps, save_state-Keeps, load_state-Keeps,
  get_last_execution_handler-Keeps, get_history-Keeps, get_history_at_version-Keeps,
)

module _ {I : Db → Type 0} (k : IsKept I) where
  -- Every request, of whatever user and under whatever faults, keeps what the statements keep.
  pub handle-Keeps : (env : Env) (user : ℕ) (req : Request) → Keeps (OfDb I) (handle env user req)
  unfolding handle
  handle-Keeps env user (post_room body) = search handler_rules
  handle-Keeps env user _ = search handler_rules
