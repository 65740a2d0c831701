-- ===== src/Rooms/FilesHandler.antt =====
-- backend/internal/rooms/files_handler.go, but for the three handlers of a file's content.
use pairly.Prelude.{
  nat_eq, string_eq, ℕ, String, Bool, true, false, not, ◌&&◌, Option, none, some, List, [], ◌∷◌,
  map, leb, if◌then◌else◌, ◌==◌,
}
use pairly.Text.{rune_count, trim_space}
use pairly.Postgres.Schema.{role_eq, viewer}
use pairly.Postgres.Files.{
  get_files_for_room, get_file_by_id, create_file, update_file, update_folder, toggle_file,
  toggle_folder, get_file_descendant_ids, permanent_delete_file,
}
use pairly.Mongo.Documents.{delete_document}
use pairly.Mongo.Snapshots.{delete_snapshots_by_file}
use pairly.World.Env.{Env}
use pairly.World.Message.{Response, respond, Body, file_response}
use pairly.World.State.{World, query, mongo}
use pairly.World.Action.{Action, pure, attempt, ignoring, stop_if, ◌>>=◌, ◌>>◌}
use pairly.Rooms.Shared.{fail, said, bind, member_role, publish_files}
use pairly.Rooms.Language.{lang_from_extension}
use pairly.Rooms.RoomsHandler.{save_new_document}

abbrev pub is_none : Option ℕ → Bool
is_none none = true
is_none (some p) = false

-- createFileRequest
pub record CreateFileRequest : Type 0 where
  pub name : String
  pub parent_id : Option ℕ
  pub is_folder : Bool
  pub language : String

-- binding:"required,min=1,max=255"
unfoldable pub valid_create_file : CreateFileRequest → Bool
valid_create_file req = leb 1 (rune_count req.name) && leb (rune_count req.name) 255

-- A folder has no language; a file has the one that was asked for, or that of its extension.
unfoldable pub language_of : CreateFileRequest → String
language_of req =
    if req.is_folder
    then ""
    else if not (req.language == "")
    then req.language
    else lang_from_extension req.name

-- updateFileRequest
pub record UpdateFileRequest : Type 0 where
  pub name : String
  pub language : String
  pub parent_id : Option ℕ

abbrev any_update : UpdateFileRequest → Bool
any_update req = true

-- One round of PermanentDeleteFile's loop: both errors are dropped.
unfoldable pub drop_document : ℕ → World → Unit {0} × World
drop_document id w = (tt, record w { documents = delete_document id w.documents })

unfoldable pub drop_file_snapshots : ℕ → World → Unit {0} × World
drop_file_snapshots id w = (tt, record w { snapshots = delete_snapshots_by_file id w.snapshots })

unfoldable pub drop_contents : List ℕ → Action (Unit {0})
drop_contents [] = pure tt
drop_contents (id ∷ ids) = do
  ignoring tt (mongo (drop_document id))
  ignoring tt (mongo (drop_file_snapshots id))
  drop_contents ids

module _ (env : Env) where
  -- GetFiles
  unfoldable pub get_files : ℕ → ℕ → Action Response
  get_files room_id user_id = do
    member_role "not a member of this room" room_id user_id
    fs ← attempt (fail 500 "could not get files") (query (get_files_for_room env.name_le room_id))
    pure (respond 200 (Body.files (map (file_response env) fs)))

  -- CreateFile
  unfoldable pub create_file_handler : ℕ → ℕ → Option CreateFileRequest → Action Response
  create_file_handler room_id user_id body = do
    req ← bind valid_create_file body
    role ← member_role "not a member of this room" room_id user_id
    stop_if (role == viewer) (fail 403 "viewers cannot create files")
    f ← attempt (fail 500 "could not create file") (
        query (
          create_file (record {
            room_id = room_id;
            name = trim_space req.name;
            language = language_of req;
            parent_id = req.parent_id;
            is_folder = req.is_folder;
            created_by = user_id;
          })))
    if req.is_folder
        then pure tt
        else attempt (fail 500 "could not create document") (mongo (save_new_document f.id room_id))
    publish_files env room_id
    pure (respond 201 (Body.file (file_response env f)))

  -- The branch of UpdateFile for a folder.
  unfoldable pub update_folder_branch : ℕ → ℕ → UpdateFileRequest → Action Response
  update_folder_branch room_id file_id req = do
    f ← attempt (fail 500 "could not update folder") (
        query (
          update_folder (record {
            folder_id = file_id;
            name = trim_space req.name;
            parent_id = req.parent_id;
          })))
    publish_files env room_id
    pure (respond 200 (Body.file (file_response env f)))

  -- The rest of UpdateFile, for a file.
  unfoldable pub update_file_branch : ℕ → ℕ → UpdateFileRequest → Action Response
  update_file_branch room_id file_id req = do
    f ← attempt (fail 500 "could not update file") (
        query (
          update_file (record {
            file_id = file_id;
            name = trim_space req.name;
            language = if req.language == "" then lang_from_extension req.name else req.language;
            parent_id = req.parent_id;
          })))
    publish_files env room_id
    pure (respond 200 (Body.file (file_response env f)))

  -- UpdateFile
  unfoldable pub update_file_handler : ℕ → ℕ → ℕ → Option UpdateFileRequest → Action Response
  unfolding update_folder_branch update_file_branch
  update_file_handler room_id file_id user_id body = do
    req ← bind any_update body
    stop_if (trim_space req.name == "" && is_none req.parent_id)
        (fail 400 "at least name or parent_id is required")
    role ← member_role "not a member of this room" room_id user_id
    stop_if (role == viewer) (fail 403 "viewers cannot modify files")
    existing ← attempt (fail 404 "file not found") (query (get_file_by_id file_id))
    if existing.is_folder
        then update_folder_branch room_id file_id req
        else update_file_branch room_id file_id req

  -- The branch of ToggleFile for a folder.
  unfoldable pub toggle_folder_branch : ℕ → ℕ → Action Response
  toggle_folder_branch room_id file_id = do
    fs ← attempt (fail 500 "could not toggle folder") (query (toggle_folder file_id))
    publish_files env room_id
    pure (respond 200 (Body.files (map (file_response env) fs)))

  -- The rest of ToggleFile, for a file.
  unfoldable pub toggle_file_branch : ℕ → ℕ → Action Response
  toggle_file_branch room_id file_id = do
    f ← attempt (fail 500 "could not toggle file") (query (toggle_file file_id))
    publish_files env room_id
    pure (respond 200 (Body.file (file_response env f)))

  -- ToggleFile
  unfoldable pub toggle_file_handler : ℕ → ℕ → ℕ → Action Response
  unfolding toggle_folder_branch toggle_file_branch
  toggle_file_handler room_id file_id user_id = do
    role ← member_role "not a member of this room" room_id user_id
    stop_if (role == viewer) (fail 403 "viewers cannot delete files")
    existing ← attempt (fail 404 "file not found") (query (get_file_by_id file_id))
    if existing.is_folder
        then toggle_folder_branch room_id file_id
        else toggle_file_branch room_id file_id

  -- PermanentDeleteFile
  unfoldable pub permanent_delete_handler : ℕ → ℕ → ℕ → Action Response
  unfolding drop_contents
  permanent_delete_handler room_id file_id user_id = do
    role ← member_role "not a member of this room" room_id user_id
    stop_if (role == viewer) (fail 403 "viewers cannot delete files")
    ids ←
        attempt (fail 500 "could not resolve descendants") (query (get_file_descendant_ids file_id))
    drop_contents ids
    attempt (fail 500 "could not permanently delete") (query (permanent_delete_file file_id))
    publish_files env room_id
    pure (said "permanently deleted")
