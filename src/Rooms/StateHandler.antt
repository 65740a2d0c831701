-- ===== src/Rooms/StateHandler.antt =====
-- The handlers of a file's content in backend/internal/rooms/files_handler.go, and the goroutines
-- that SaveState starts. Spans, metrics and log lines are left out.
pub mod Saves
use pairly.Prelude.{
  nat_eq, string_eq, ℕ, ◌+◌, String, Bool, true, false, not, ◌&&◌, ◌||◌, Option, none, some, List,
  [], ◌∷◌, ◌++◌, if◌then◌else◌, ◌==◌,
}
use pairly.Outcome.{Outcome, row, no_rows, failed, hang}
use pairly.Postgres.Schema.{Role, role_eq, viewer, File}
use pairly.Postgres.Files.{get_file_by_id}
use pairly.Mongo.Documents.{Bytes, YjsDocument, load_document, save_document}
use pairly.Mongo.Snapshots.{FileSnapshot, get_latest_snapshot, save_snapshot}
use pairly.Mongo.Executions.{ExecutionResult, get_last_execution}
use pairly.World.Env.{Env}
use pairly.World.Message.{Response, respond, Body, EditEvent}
use pairly.World.State.{
  World, Task, publish_edit, snapshot, query, mongo, fault, called, Call, DeadLetter,
}
use pairly.World.Action.{Result, ok, Action, pure, attempt, ignoring, modify, stop_if, ◌>>=◌, ◌>>◌}
use pairly.Rooms.Shared.{fail, said, member_role}

-- []byte of length 0
abbrev pub is_empty : Bytes → Bool
is_empty [] = true
is_empty (b ∷ bs) = false

-- yjsBlobToText
unfoldable pub yjs_blob_to_text : Env → Bytes → String
yjs_blob_to_text env blob = env.get_text (env.apply_update env.new_doc blob)

unfoldable pub latest_of : ℕ → World → Option FileSnapshot × World
latest_of file_id w = (get_latest_snapshot file_id w.snapshots, w)

-- err == nil && latest != nil && latest.Text == incomingText, where an error reads as `none`
abbrev pub unchanged : Option FileSnapshot → String → Bool
unchanged none text = false
unchanged (some s) text = s.text == text

unfoldable pub store_state : ℕ → Bytes → World → ℕ × World
store_state file_id state w =
    let (version, docs) = save_document w.db.now file_id state w.documents in
    (version, record w { documents = docs })

-- The two goroutines; the event's time is set when the first one runs.
unfoldable pub start_tasks : ℕ → ℕ → ℕ → Bytes → ℕ → String → World → World
start_tasks room_id file_id user_id state version text w = record w {
  tasks =
      w.tasks
      ++ publish_edit (record {
        room_id = room_id;
        file_id = file_id;
        user_id = user_id;
        yjs_blob = state;
        version = version;
        saved_at = w.db.now;
      })
        ∷ snapshot file_id room_id version text
        ∷ [];
}

-- SaveState after the dedup test.
unfoldable pub save_changed : ℕ → ℕ → ℕ → Bytes → String → Action Response
save_changed room_id file_id user_id state text = do
  version ← attempt (fail 500 "could not save state") (mongo (store_state file_id state))
  modify (start_tasks room_id file_id user_id state version text)
  pure (said "saved")

-- io.ReadAll(c.Request.Body), with the test of its error and of the length.
unfoldable pub read_state : Option Bytes → Action Bytes
read_state none w = (Result.stop (fail 400 "empty state"), w)
read_state (some bytes) w =
    (if is_empty bytes then Result.stop (fail 400 "empty state") else ok bytes, w)

-- SaveState; `none` is a body that could not be read.
unfoldable pub save_state : Env → ℕ → ℕ → ℕ → Option Bytes → Action Response
save_state env room_id file_id user_id body = do
  role ← member_role "not a member of this room" room_id user_id
  stop_if (role == viewer) (fail 403 "viewers cannot save")
  existing ← attempt (fail 404 "file not found") (query (get_file_by_id file_id))
  stop_if existing.is_folder (fail 400 "folders do not have state")
  state ← read_state body
  latest ← ignoring none (mongo (latest_of file_id))
  if unchanged latest (yjs_blob_to_text env state)
      then pure (said "saved")
      else save_changed room_id file_id user_id state (yjs_blob_to_text env state)

unfoldable pub document_of : ℕ → World → Option YjsDocument × World
document_of file_id w = (load_document file_id w.documents, w)

-- doc == nil || len(doc.YjsState) == 0 is 204
abbrev pub state_response : Option YjsDocument → Response
state_response none = respond 204 Body.no_content
state_response (some d) =
    if is_empty d.yjs_state
    then respond 204 Body.no_content
    else respond 200 (Body.state d.yjs_state)

-- LoadState
unfoldable pub load_state : ℕ → ℕ → ℕ → Action Response
load_state room_id file_id user_id = do
  member_role "not a member of this room" room_id user_id
  existing ← attempt (fail 404 "file not found") (query (get_file_by_id file_id))
  stop_if existing.is_folder (fail 400 "folders do not have state")
  doc ← attempt (fail 500 "could not load state") (mongo (document_of file_id))
  pure (state_response doc)

unfoldable pub execution_of : ℕ → World → Option ExecutionResult × World
execution_of file_id w = (get_last_execution file_id w.executions, w)

abbrev pub execution_response : Option ExecutionResult → Response
execution_response none = respond 204 Body.no_content
execution_response (some e) = respond 200 (
    Body.execution (record {
      output = e.output;
      exit_code = e.exit_code;
      duration_ms = e.duration_ms;
      truncated = e.truncated;
      executed_at = e.executed_at;
    }))

-- GetLastExecution
unfoldable pub get_last_execution_handler : ℕ → ℕ → ℕ → Action Response
get_last_execution_handler room_id file_id user_id = do
  member_role "not a member" room_id user_id
  found ← attempt (fail 500 "could not fetch execution") (mongo (execution_of file_id))
  pure (execution_response found)

-- What a goroutine does when it runs: the first writes the edit event, with the time at which it
-- runs, or else a dead letter; the second saves the snapshot.
unfoldable pub run_task : Task → World → World
run_task (publish_edit e) w =
    if fault w
    then (let w' = called w in
        if fault w' then called w' else record w' {
          dead_letters =
              w'.dead_letters
              ++ record { original_topic = "edit-events"; payload = e.yjs_blob } ∷ [];
          calls = w'.calls + 1;
        })
    else record w {
      edit_events = w.edit_events ++ some (record e { saved_at = w.db.now }) ∷ [];
      calls = w.calls + 1;
    }
run_task (snapshot file_id room_id version text) w = if fault w then called w else record w {
  snapshots = save_snapshot w.db.now file_id room_id version text w.snapshots;
  calls = w.calls + 1;
}
