-- ===== src/Rooms/Access/Handlers.antt =====
-- Each handler refuses those whose role does not allow it.
use pairly.Prelude.{nat_eq, string_eq, ℕ, ◌≡◌, refl, String, not, Option, none, some, arith, ◌==◌}
use pairly.Postgres.Schema.{owner, viewer, role_eq}
use pairly.Postgres.Ownership.Roles.{role_in}
use pairly.World.Env.{Env}
use pairly.World.State.{World, called}
use pairly.Mongo.Documents.{Bytes}
use pairly.Rooms.RoomsHandler.{
  NameRequest, get_role, delete_room_handler, rename_room_handler, leave_room_handler,
}
use pairly.Rooms.MembersHandler.{
  AddMemberRequest, list_members_handler, add_member_handler, remove_member_handler,
  update_member_role_handler,
}
use pairly.Rooms.FilesHandler.{
  CreateFileRequest, UpdateFileRequest, get_files, create_file_handler, update_file_handler,
  toggle_file_handler, permanent_delete_handler,
}
use pairly.Rooms.StateHandler.{save_state, load_state, get_last_execution_handler}
use pairly.Rooms.HistoryHandler.{get_history, get_history_at_version}
use pairly.Rooms.Routes.{
  Request, post_room, list, role, delete, leave, rename, files, post_file, patch_file, toggle,
  permanent, post_state, get_state, history, history_at, post_member, members, delete_member,
  patch_member, execution, handle,
}
use pairly.Rooms.Access.Rules.{room_of, IsDenied, no_role, moved}
use pairly.Rooms.Access.Refused.{
  room_name-Refused, read_version-Refused, Refused, bind-Refused, guarded-Refused, reader-Refused,
  stop_if-Refused,
}

module _ (env : Env) (w : World) (room user : ℕ) where
  delete-Refused : IsDenied w user (delete room) room → Refused w (delete_room_handler room user w)
  unfolding delete_room_handler
  delete-Refused d = room_name-Refused room _ w refl λ name.
      guarded-Refused _ room user (λ r. not (r == owner)) _ _ (called w) refl (omega arith)
        (λ r e. ground (arith, d r e))

  rename-Refused :
      (body : Option NameRequest)
      → IsDenied w user (rename room body) room
      → Refused w (rename_room_handler room user body w)
  unfolding rename_room_handler
  rename-Refused body d = bind-Refused _ body _ w refl λ req.
      guarded-Refused _ room user (λ r. not (r == owner)) _ _ w refl (omega arith)
        (λ r e. ground (arith, d r e))

  leave-Refused : IsDenied w user (leave room) room → Refused w (leave_room_handler room user w)
  unfolding leave_room_handler
  leave-Refused d =
      guarded-Refused _ room user (λ r. r == owner) _ _ w refl (omega arith)
        (λ r e. ground (arith, d r e))

  post_member-Refused :
      (body : Option AddMemberRequest)
      → IsDenied w user (post_member room body) room
      → Refused w (add_member_handler env room user body w)
  unfolding add_member_handler
  post_member-Refused body d = bind-Refused _ body _ w refl λ req.
      guarded-Refused _ room user (λ r. not (r == owner)) _ _ w refl (omega arith)
        (λ r e. ground (arith, d r e))

  delete_member-Refused :
      (target : ℕ)
      → IsDenied w user (delete_member room target) room
      → Refused w (remove_member_handler room target user w)
  unfolding remove_member_handler
  delete_member-Refused target d =
      guarded-Refused _ room user (λ r. not (r == owner)) _ _ w refl (omega arith)
        (λ r e. ground (arith, d r e))

  patch_member-Refused :
      (target : ℕ) (body : Option String)
      → IsDenied w user (patch_member room target body) room
      → Refused w (update_member_role_handler room target user body w)
  unfolding update_member_role_handler
  patch_member-Refused target body d = bind-Refused _ body _ w refl λ req.
      guarded-Refused _ room user (λ r. not (r == owner)) _ _ w refl (omega arith)
        (λ r e. ground (arith, d r e))

  post_file-Refused :
      (body : Option CreateFileRequest)
      → IsDenied w user (post_file room body) room
      → Refused w (create_file_handler env room user body w)
  unfolding create_file_handler
  post_file-Refused body d = bind-Refused _ body _ w refl λ req.
      guarded-Refused _ room user (λ r. r == viewer) _ _ w refl (omega arith)
        (λ r e. ground (arith, d r e))

  patch_file-Refused :
      (file : ℕ) (body : Option UpdateFileRequest)
      → IsDenied w user (patch_file room file body) room
      → Refused w (update_file_handler env room file user body w)
  unfolding update_file_handler
  patch_file-Refused file body d = bind-Refused _ body _ w refl λ req.
      stop_if-Refused _ _ _ w refl (omega arith) λ _.
        guarded-Refused _ room user (λ r. r == viewer) _ _ w refl (omega arith)
          (λ r e. ground (arith, d r e))

  toggle-Refused :
      (file : ℕ)
      → IsDenied w user (toggle room file) room
      → Refused w (toggle_file_handler env room file user w)
  unfolding toggle_file_handler
  toggle-Refused file d =
      guarded-Refused _ room user (λ r. r == viewer) _ _ w refl (omega arith)
        (λ r e. ground (arith, d r e))

  permanent-Refused :
      (file : ℕ)
      → IsDenied w user (permanent room file) room
      → Refused w (permanent_delete_handler env room file user w)
  unfolding permanent_delete_handler
  permanent-Refused file d =
      guarded-Refused _ room user (λ r. r == viewer) _ _ w refl (omega arith)
        (λ r e. ground (arith, d r e))

  post_state-Refused :
      (file : ℕ) (body : Option Bytes)
      → IsDenied w user (post_state room file body) room
      → Refused w (save_state env room file user body w)
  unfolding save_state
  post_state-Refused file body d =
      guarded-Refused _ room user (λ r. r == viewer) _ _ w refl (omega arith)
        (λ r e. ground (arith, d r e))

  role-Refused : role_in w.db room user ≡ none → Refused w (get_role room user w)
  unfolding get_role
  role-Refused h = reader-Refused _ room user _ w refl h

  files-Refused : role_in w.db room user ≡ none → Refused w (get_files env room user w)
  unfolding get_files
  files-Refused h = reader-Refused _ room user _ w refl h

  members-Refused : role_in w.db room user ≡ none → Refused w (list_members_handler room user w)
  unfolding list_members_handler
  members-Refused h = reader-Refused _ room user _ w refl h

  get_state-Refused :
      (file : ℕ) → role_in w.db room user ≡ none → Refused w (load_state room file user w)
  unfolding load_state
  get_state-Refused file h = reader-Refused _ room user _ w refl h

  execution-Refused :
      (file : ℕ)
      → role_in w.db room user ≡ none
      → Refused w (get_last_execution_handler room file user w)
  unfolding get_last_execution_handler
  execution-Refused file h = reader-Refused _ room user _ w refl h

  history-Refused :
      (file : ℕ) → role_in w.db room user ≡ none → Refused w (get_history room file user w)
  unfolding get_history
  history-Refused file h = reader-Refused _ room user _ w refl h

  history_at-Refused :
      (file : ℕ) (version : Option ℕ)
      → role_in w.db room user ≡ none
      → Refused w (get_history_at_version env room file user version w)
  unfolding get_history_at_version
  history_at-Refused file version h =
      read_version-Refused version _ w refl λ v. reader-Refused _ room user _ w refl h

-- A request about a room that the caller's role does not allow (by the README's table: owners
-- manage the room and its members, owners and editors change files, the owner may not leave), or
-- whose caller is no member of the room, gets an error status of 400 or more, and changes nothing:
-- the tables, the collections, what was published and the goroutines are as they were, whatever
-- calls fail.
pub handle-Refused :
    (env : Env) (w : World) (user room : ℕ) (req : Request)
    → room_of req ≡ some room
    → IsDenied w user req room
    → Refused w (handle env user req w)
unfolding handle
handle-Refused env w user room (post_room body) e d = absurd (cc)
handle-Refused env w user room list e d = absurd (cc)
handle-Refused env w user room (delete r) e d =
    delete-Refused env w r user (moved w user (delete r) room r e d)
handle-Refused env w user room (leave r) e d =
    leave-Refused env w r user (moved w user (leave r) room r e d)
handle-Refused env w user room (rename r body) e d =
    rename-Refused env w r user body (moved w user (rename r body) room r e d)
handle-Refused env w user room (post_member r body) e d =
    post_member-Refused env w r user body (moved w user (post_member r body) room r e d)
handle-Refused env w user room (delete_member r t) e d =
    delete_member-Refused env w r user t (moved w user (delete_member r t) room r e d)
handle-Refused env w user room (patch_member r t body) e d =
    patch_member-Refused env w r user t body (moved w user (patch_member r t body) room r e d)
handle-Refused env w user room (post_file r body) e d =
    post_file-Refused env w r user body (moved w user (post_file r body) room r e d)
handle-Refused env w user room (patch_file r f body) e d =
    patch_file-Refused env w r user f body (moved w user (patch_file r f body) room r e d)
handle-Refused env w user room (toggle r f) e d =
    toggle-Refused env w r user f (moved w user (toggle r f) room r e d)
handle-Refused env w user room (permanent r f) e d =
    permanent-Refused env w r user f (moved w user (permanent r f) room r e d)
handle-Refused env w user room (post_state r f body) e d =
    post_state-Refused env w r user f body (moved w user (post_state r f body) room r e d)
handle-Refused env w user room (role r) e d =
    role-Refused env w r user (no_role _ (moved w user (role r) room r e d))
handle-Refused env w user room (files r) e d =
    files-Refused env w r user (no_role _ (moved w user (files r) room r e d))
handle-Refused env w user room (members r) e d =
    members-Refused env w r user (no_role _ (moved w user (members r) room r e d))
handle-Refused env w user room (get_state r f) e d =
    get_state-Refused env w r user f (no_role _ (moved w user (get_state r f) room r e d))
handle-Refused env w user room (execution r f) e d =
    execution-Refused env w r user f (no_role _ (moved w user (execution r f) room r e d))
handle-Refused env w user room (history r f) e d =
    history-Refused env w r user f (no_role _ (moved w user (history r f) room r e d))
handle-Refused env w user room (history_at r f v) e d =
    history_at-Refused env w r user f v (no_role _ (moved w user (history_at r f v) room r e d))
