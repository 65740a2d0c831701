-- ===== src/Rooms/HistoryHandler.antt =====
-- backend/internal/rooms/history_handler.go
pub mod Replay
pub mod Published
use pairly.Prelude.{
  nat_eq, ℕ, ◌+◌, String, Bool, true, false, not, ◌&&◌, Option, none, some, List, [], ◌∷◌, ◌++◌,
  ltb, leb, if◌then◌else◌, ◌==◌,
}
use pairly.Mongo.Snapshots.{FileSnapshot, get_snapshot}
use pairly.World.Env.{Env}
use pairly.World.Message.{Response, respond, Body, EditEvent, HistoryEntry}
use pairly.World.State.{World, Task, snapshot, mongo, fault, called}
use pairly.World.Action.{Result, ok, stop, Action, pure, perform, ignoring, modify, ◌>>=◌, ◌>>◌}
use pairly.Rooms.Shared.{fail, member_role}

abbrev pub entry_of : EditEvent → HistoryEntry
entry_of e = record { version = e.version; saved_at = e.saved_at; user_id = e.user_id }

-- The loop of readHistoryEntries: a fetch that fails ends it, and so does a version that reaches
-- a maximum above 0.
unfoldable pub read_entries : ℕ → ℕ → List (Option EditEvent) → World → List HistoryEntry × World
read_entries file_id max_version [] w = ([], w)
read_entries file_id max_version (none ∷ ms) w =
    let rest = read_entries file_id max_version ms (called w) in
    if fault w then ([], called w) else rest
read_entries file_id max_version (some e ∷ ms) w =
    let rest = read_entries file_id max_version ms (called w) in
    if fault w
    then ([], called w)
    else if not (e.file_id == file_id)
    then rest
    else if ltb 0 max_version && leb max_version e.version
    then (entry_of e ∷ [], called w)
    else let (entries, w') = rest in (entry_of e ∷ entries, w')

-- readHistoryEntries; where the broker gives no high watermark it reads until its time is over,
-- in the same loop.
unfoldable pub read_history_entries : ℕ → ℕ → World → List HistoryEntry × World
unfolding read_entries
read_history_entries file_id max_version w =
    read_entries file_id max_version w.edit_events (called w)

-- GetHistory
unfoldable pub get_history : ℕ → ℕ → ℕ → Action Response
get_history room_id file_id user_id = do
  member_role "not a member" room_id user_id
  entries ← perform (read_history_entries file_id 0)
  pure (respond 200 (Body.history entries))

unfoldable pub snapshot_of : ℕ → ℕ → World → Option FileSnapshot × World
snapshot_of file_id version w = (get_snapshot file_id version w.snapshots, w)

-- The goroutine that saves what was replayed as the snapshot of the version.
unfoldable pub start_backfill : ℕ → ℕ → ℕ → String → World → World
start_backfill room_id file_id version text w = record w {
  tasks = w.tasks ++ snapshot file_id room_id version text ∷ [];
}

-- strconv.Atoi and the test for a version below 1; `none` is a text that is no number, or that
-- is a negative one.
unfoldable pub read_version : Option ℕ → Action ℕ
read_version none w = (stop (fail 400 "invalid version"), w)
read_version (some v) w = (if ltb v 1 then stop (fail 400 "invalid version") else ok v, w)

module _ (env : Env) where
  -- The loop of replayYjsToVersion: every event of the file is applied, up to the first whose
  -- version reaches the target.
  unfoldable pub replay_events : ℕ → ℕ → List (Option EditEvent) → env.Doc → World → env.Doc × World
  replay_events file_id target [] doc w = (doc, w)
  replay_events file_id target (none ∷ ms) doc w =
      let rest = replay_events file_id target ms doc (called w) in
      if fault w then (doc, called w) else rest
  replay_events file_id target (some e ∷ ms) doc w =
      let skipped = replay_events file_id target ms doc (called w) in
      let doc' = env.apply_update doc e.yjs_blob in
      let next = replay_events file_id target ms doc' (called w) in
      if fault w
      then (doc, called w)
      else if not (e.file_id == file_id)
      then skipped
      else if leb target e.version
      then (doc', called w)
      else next

  -- replayYjsToVersion
  unfoldable pub replay_yjs_to_version : ℕ → ℕ → World → String × World
  unfolding replay_events
  replay_yjs_to_version file_id target w =
      let (doc, w') = replay_events file_id target w.edit_events env.new_doc (called w) in
      (env.get_text doc, w')

  -- GetHistoryAtVersion after a miss in the snapshots.
  unfoldable pub replay_and_backfill : ℕ → ℕ → ℕ → Action Response
  replay_and_backfill room_id file_id version = do
    text ← perform (replay_yjs_to_version file_id version)
    modify (start_backfill room_id file_id version text)
    pure (respond 200 (Body.version_text version text))

  unfoldable pub answer_version : ℕ → ℕ → ℕ → Option FileSnapshot → Action Response
  unfolding replay_and_backfill
  answer_version room_id file_id version none = replay_and_backfill room_id file_id version
  answer_version room_id file_id version (some s) =
      pure (respond 200 (Body.version_text version s.text))

  -- GetHistoryAtVersion
  unfoldable pub get_history_at_version : ℕ → ℕ → ℕ → Option ℕ → Action Response
  get_history_at_version room_id file_id user_id version_text = do
    version ← read_version version_text
    member_role "not a member" room_id user_id
    snap ← ignoring none (mongo (snapshot_of file_id version))
    answer_version room_id file_id version snap
