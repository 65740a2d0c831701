-- ===== src/Rooms/HistoryHandler/Replay.antt =====
-- The two loops over the topic in backend/internal/rooms/history_handler.go, against a filter of the
-- topic and a fold of it.
use pairly.Prelude.{
  nat_eq, ℕ, ◌≡◌, refl, ap, false, Option, none, some, List, [], ◌∷◌, map, arith, ◌==◌, leb,
  if◌then◌else◌,
}
use pairly.World.Env.{Env}
use pairly.World.Message.{EditEvent}
use pairly.World.State.{World, called}
use pairly.Rooms.HistoryHandler.{
  entry_of, read_entries, read_history_entries, replay_events, replay_yjs_to_version,
}

-- The events of one file, in the order of the topic; a message that is no event is passed over.
unfoldable pub events_of : ℕ → List (Option EditEvent) → List EditEvent
events_of file [] = []
events_of file (none ∷ ms) = events_of file ms
events_of file (some e ∷ ms) =
    let rest = events_of file ms in if e.file_id == file then e ∷ rest else rest

-- The events up to the first whose version is no less than the target, which is among them.
unfoldable pub up_to : ℕ → List EditEvent → List EditEvent
up_to target [] = []
up_to target (e ∷ es) =
    let rest = up_to target es in if leb target e.version then e ∷ [] else e ∷ rest

read_entries_all :
    (file : ℕ) (ms : List (Option EditEvent)) (w : World)
    → ((n : ℕ) → w.faults n ≡ false)
    → (read_entries file 0 ms w).0 ≡ map entry_of (events_of file ms)
unfolding read_entries events_of
read_entries_all file [] w up = refl
read_entries_all file (none ∷ ms) w up =
    ground (arith, read_entries_all file ms (called w) up, up w.calls)
read_entries_all file (some e ∷ ms) w up =
    ground (arith, read_entries_all file ms (called w) up, up w.calls)

-- While no call fails, the history of a file is the entry of every event of the file, in the
-- order of the topic.
pub read_history_entries-events_of :
    (file : ℕ) (w : World)
    → ((n : ℕ) → w.faults n ≡ false)
    → (read_history_entries file 0 w).0 ≡ map entry_of (events_of file w.edit_events)
unfolding read_history_entries
read_history_entries-events_of file w up = read_entries_all file w.edit_events (called w) up

module _ (env : Env) where
  unfoldable pub apply_all : env.Doc → List EditEvent → env.Doc
  apply_all doc [] = doc
  apply_all doc (e ∷ es) = apply_all (env.apply_update doc e.yjs_blob) es

  replay_events_fold :
      (file target : ℕ) (ms : List (Option EditEvent)) (doc : env.Doc) (w : World)
      → ((n : ℕ) → w.faults n ≡ false)
      → (replay_events env file target ms doc w).0
        ≡ apply_all doc (up_to target (events_of file ms))
  unfolding replay_events apply_all events_of up_to
  replay_events_fold file target [] doc w up = refl
  replay_events_fold file target (none ∷ ms) doc w up =
      ground (arith, replay_events_fold file target ms doc (called w) up, up w.calls)
  replay_events_fold file target (some e ∷ ms) doc w up = ground (
    arith,
    replay_events_fold file target ms doc (called w) up,
    replay_events_fold file target ms (env.apply_update doc e.yjs_blob) (called w) up,
    up w.calls,
  )

  -- While no call fails, the text of a version is that of a new document after the updates of the
  -- file's events, in their order, up to the first event whose version is no less.
  pub replay_yjs_to_version-apply_all :
      (file target : ℕ) (w : World)
      → ((n : ℕ) → w.faults n ≡ false)
      → (replay_yjs_to_version env file target w).0
        ≡ env.get_text (apply_all env.new_doc (up_to target (events_of file w.edit_events)))
  unfolding replay_yjs_to_version
  replay_yjs_to_version-apply_all file target w up =
      ap env.get_text (replay_events_fold file target w.edit_events env.new_doc (called w) up)
