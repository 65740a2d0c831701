-- ===== src/Rooms/HistoryHandler/Published.antt =====
-- The history after the goroutine of SaveState has run: backend/internal/rooms/files_handler.go and
-- history_handler.go together.
use pairly.Prelude.{
  nat_eq, ℕ, ◌≡◌, refl, sym, ap, ◌∙◌, Bool, false, Option, none, some, List, [], ◌∷◌, ◌++◌, map,
  arith, ==_refl,
}
use pairly.World.Message.{EditEvent, HistoryEntry}
use pairly.World.State.{World, publish_edit}
use pairly.Rooms.StateHandler.{run_task}
use pairly.Rooms.HistoryHandler.{entry_of, read_history_entries}
use pairly.Rooms.HistoryHandler.Replay.{events_of, read_history_entries-events_of}

events_of-append :
    (file : ℕ) (ms : List (Option EditEvent)) (e : EditEvent)
    → e.file_id ≡ file
    → events_of file (ms ++ some e ∷ []) ≡ events_of file ms ++ e ∷ []
unfolding events_of
events_of-append file [] e h = ground (arith, ==_refl file)
events_of-append file (none ∷ ms) e h = events_of-append file ms e h
events_of-append file (some m ∷ ms) e h = ground (arith, events_of-append file ms e h)

map-append :
    (es : List EditEvent) (e : EditEvent)
    → map entry_of (es ++ e ∷ []) ≡ map entry_of es ++ entry_of e ∷ []
map-append [] e = refl
map-append (x ∷ es) e = ap (λ (l : List HistoryEntry). entry_of x ∷ l) (map-append es e)

published_events :
    (w : World) (e : EditEvent)
    → ((n : ℕ) → w.faults n ≡ false)
    → ((run_task (publish_edit e) w).edit_events
        ≡ w.edit_events ++ some (record e { saved_at = w.db.now }) ∷ [])
      × ((run_task (publish_edit e) w).faults ≡ w.faults)
unfolding run_task
published_events w e up = (ground (arith, up w.calls), ground (arith, up w.calls))

-- While no call fails, the history of a file after the goroutine of a save of the file has run is the
-- history before, and then the entry of the save, with its version and user and the time at which
-- the goroutine ran.
pub read_history_entries-run_task :
    (w : World) (e : EditEvent)
    → ((n : ℕ) → w.faults n ≡ false)
    → (read_history_entries e.file_id 0 (run_task (publish_edit e) w)).0
      ≡ (read_history_entries e.file_id 0 w).0
        ++ record { version = e.version; saved_at = w.db.now; user_id = e.user_id } ∷ []
read_history_entries-run_task w e up =
    let file = e.file_id in
    let (events, faults) = published_events w e up in
    read_history_entries-events_of file (run_task (publish_edit e) w)
      (λ n. ap (λ (f : ℕ → Bool). f n) faults ∙ up n)
    ∙ ap (λ (ms : List (Option EditEvent)). map entry_of (events_of file ms)) events
    ∙ ap (map entry_of)
        (events_of-append file w.edit_events (record e { saved_at = w.db.now }) refl)
    ∙ map-append (events_of file w.edit_events) (record e { saved_at = w.db.now })
    ∙ ap
        (λ (l : List HistoryEntry).
          l ++ record { version = e.version; saved_at = w.db.now; user_id = e.user_id } ∷ [])
        (sym (read_history_entries-events_of file w up))
