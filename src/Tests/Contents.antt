-- ===== src/Tests/Contents.antt =====
-- The theorems of documents, snapshots, saves and history.
use pairly.Prelude.{
  ◌++◌, nat_eq, string_eq, ℕ, ◌+◌, ◌≡◌, refl, String, false, none, some, List, [], ◌∷◌, any, find,
  map, ◌⊎◌,
}
use pairly.Outcome.{row, wrap}
use pairly.Postgres.Rooms.{get_member_role, insert_room, insert_member}
use pairly.Postgres.Files.{get_file_by_id, insert_default_file, create_file, fits}
use pairly.Mongo.Documents.{YjsDocument, load_document, save_document, set_state}
use pairly.Mongo.Documents.RoundTrip.{version_of, load_document-save_document}
use pairly.Mongo.Snapshots.{FileSnapshot, save_snapshot, get_snapshot, get_latest_snapshot}
use pairly.Mongo.Snapshots.RoundTrip.{
  is_later, get_snapshot-save_snapshot, get_latest_snapshot_highest,
}
use pairly.World.Message.{EditEvent}
use pairly.World.State.{World, query, mongo, and_then, transaction}
use pairly.World.Action.{ok, attempt, ignoring, call_or, modify, stop_if, pure, ◌>>=◌}
use pairly.Rooms.Shared.{said, member_role}
use pairly.Rooms.Access.Refused.{SameBut}
use pairly.Rooms.RoomsHandler.{create_room_call}
use pairly.Rooms.NewRoom.{new_room, with_new_room, create_room_call-row}
use pairly.Rooms.StateHandler.{
  yjs_blob_to_text, latest_of, store_state, start_tasks, save_changed, read_state, save_state,
}
use pairly.Rooms.StateHandler.Saves.{after_save, save_state-ok}
use pairly.Rooms.HistoryHandler.{entry_of, read_history_entries, replay_yjs_to_version}
use pairly.Rooms.HistoryHandler.Replay.{
  events_of, up_to, apply_all, read_history_entries-events_of, replay_yjs_to_version-apply_all,
}
use pairly.World.State.{publish_edit}
use pairly.Rooms.StateHandler.{run_task}
use pairly.Rooms.HistoryHandler.Published.{read_history_entries-run_task}
use pairly.Tests.Fixtures.{env, world, db, document}

abbrev docs : List YjsDocument
docs = document ∷ []

load_document-save_document_example :
    (d : YjsDocument) × (load_document 21 (save_document 6 21 (98 ∷ []) docs).1 ≡ some d)
    × (d.yjs_state ≡ 98 ∷ [])
    × (d.version ≡ (save_document 6 21 (98 ∷ []) docs).0)
    × (d.version ≡ version_of 21 docs + 1)
load_document-save_document_example = load_document-save_document 6 21 (98 ∷ []) docs

abbrev version : ℕ → String → FileSnapshot
version n text = record { file_id = 21; room_id = 10; version = n; text = text; saved_at = 4 }

abbrev snaps : List FileSnapshot
snaps = version 1 "a" ∷ version 2 "ab" ∷ []

get_snapshot-save_snapshot_example :
    (s : FileSnapshot) × (get_snapshot 21 2 (save_snapshot 6 21 10 2 "abb" snaps) ≡ some s)
    × (s.text ≡ "abb")
    × (s.room_id ≡ 10)
get_snapshot-save_snapshot_example = get_snapshot-save_snapshot 6 21 10 2 "abb" snaps

latest_two : get_latest_snapshot 21 snaps ≡ some (version 2 "ab")
unfolding get_latest_snapshot
latest_two = refl

get_latest_snapshot_highest_example :
    ((version 2 "ab").file_id ≡ 21) × (any (is_later 21 2) snaps ≡ false)
get_latest_snapshot_highest_example =
    get_latest_snapshot_highest 21 snaps (version 2 "ab") latest_two

-- One save of each of two files.
abbrev saved : ℕ → ℕ → EditEvent
saved file byte = record {
  room_id = 10;
  file_id = file;
  user_id = 1;
  yjs_blob = byte ∷ [];
  version = 1;
  saved_at = 4;
}

abbrev busy : World
busy = record world { edit_events = some (saved 21 97) ∷ none ∷ some (saved 23 98) ∷ [] }

read_history_entries-events_of_example :
    (read_history_entries 23 0 busy).0 ≡ map entry_of (events_of 23 busy.edit_events)
read_history_entries-events_of_example = read_history_entries-events_of 23 busy (λ n. refl)

replay_yjs_to_version-apply_all_example :
    (replay_yjs_to_version env 23 1 busy).0
    ≡ env.get_text (apply_all env env.new_doc (up_to 1 (events_of 23 busy.edit_events)))
replay_yjs_to_version-apply_all_example = replay_yjs_to_version-apply_all env 23 1 busy (λ n. refl)

made : (create_room_call "new" 1 world).0 ≡ row (new_room "new" 1 db, 101)
unfolding create_room_call transaction and_then query insert_room insert_member insert_default_file
    create_file fits any
made = refl

create_room_call-row_example :
    (new_room "new" 1 db ≡ new_room "new" 1 db)
    × (101 ≡ 100 + 1)
    × ((create_room_call "new" 1 world).1.db ≡ with_new_room "new" 1 db)
create_room_call-row_example = create_room_call-row "new" 1 world (new_room "new" 1 db) 101 made

saves : (save_state env 10 23 1 (some (98 ∷ [])) world).0 ≡ ok (said "saved")
unfolding save_state member_role call_or query get_member_role get_file_by_id find attempt stop_if
    read_state ignoring mongo latest_of get_latest_snapshot save_changed store_state save_document
    set_state modify start_tasks pure ◌>>=◌ wrap
saves = refl

save_state-ok_example :
    ((s : FileSnapshot) × (get_latest_snapshot 23 [] ≡ some s)
      × (s.text ≡ yjs_blob_to_text env (98 ∷ []))
      × SameBut world (save_state env 10 23 1 (some (98 ∷ [])) world).1)
    ⊎ SameBut
        (after_save 10 23 1 (98 ∷ []) (yjs_blob_to_text env (98 ∷ [])) world)
        (save_state env 10 23 1 (some (98 ∷ [])) world).1
save_state-ok_example = save_state-ok env 10 23 1 (98 ∷ []) world (said "saved") saves

read_history_entries-run_task_example :
    (read_history_entries 21 0 (run_task (publish_edit (saved 21 97)) busy)).0
    ≡ (read_history_entries 21 0 busy).0 ++ record { version = 1; saved_at = 5; user_id = 1 } ∷ []
read_history_entries-run_task_example = read_history_entries-run_task busy (saved 21 97) (λ n. refl)
