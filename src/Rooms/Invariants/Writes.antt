-- ===== src/Rooms/Invariants/Writes.antt =====
-- What the handlers do to MongoDB leaves the tables.
use pairly.Prelude.{ℕ, String, Option, none, some, List, [], ◌∷◌, refl, ◌≡◌, arith}
use pairly.Postgres.Schema.{Db}
use pairly.Mongo.Documents.{Bytes}
use pairly.World.Env.{Env}
use pairly.World.State.{World, called}
use pairly.World.Message.{EditEvent}
use pairly.World.Action.Keeps.{Keeps, KeepsStep, Keeps-bind, Keeps-ignoring, Keeps-pure}
use pairly.World.Action.Tables.{OfDb, LeavesDb, KeepsCall-mongo, Keeps-perform}
use pairly.Rooms.RoomsHandler.{save_new_document, drop_documents, drop_snapshots}
use pairly.Rooms.FilesHandler.{drop_document, drop_file_snapshots, drop_contents}
use pairly.Rooms.StateHandler.{latest_of, store_state, start_tasks, document_of, execution_of}
use pairly.Rooms.HistoryHandler.{
  read_entries, read_history_entries, replay_events, replay_yjs_to_version, snapshot_of,
  start_backfill,
}

pub save_new_document-LeavesDb : (f r : ℕ) → LeavesDb (save_new_document f r)
unfolding save_new_document
save_new_document-LeavesDb f r = record { at = λ w. refl }

pub drop_documents-LeavesDb : (r : ℕ) → LeavesDb (drop_documents r)
unfolding drop_documents
drop_documents-LeavesDb r = record { at = λ w. refl }

pub drop_snapshots-LeavesDb : (r : ℕ) → LeavesDb (drop_snapshots r)
unfolding drop_snapshots
drop_snapshots-LeavesDb r = record { at = λ w. refl }

pub drop_document-LeavesDb : (f : ℕ) → LeavesDb (drop_document f)
unfolding drop_document
drop_document-LeavesDb f = record { at = λ w. refl }

pub drop_file_snapshots-LeavesDb : (f : ℕ) → LeavesDb (drop_file_snapshots f)
unfolding drop_file_snapshots
drop_file_snapshots-LeavesDb f = record { at = λ w. refl }

pub latest_of-LeavesDb : (f : ℕ) → LeavesDb (latest_of f)
unfolding latest_of
latest_of-LeavesDb f = record { at = λ w. refl }

pub store_state-LeavesDb : (f : ℕ) (s : Bytes) → LeavesDb (store_state f s)
unfolding store_state
store_state-LeavesDb f s = record { at = λ w. refl }

pub document_of-LeavesDb : (f : ℕ) → LeavesDb (document_of f)
unfolding document_of
document_of-LeavesDb f = record { at = λ w. refl }

pub execution_of-LeavesDb : (f : ℕ) → LeavesDb (execution_of f)
unfolding execution_of
execution_of-LeavesDb f = record { at = λ w. refl }

pub snapshot_of-LeavesDb : (f v : ℕ) → LeavesDb (snapshot_of f v)
unfolding snapshot_of
snapshot_of-LeavesDb f v = record { at = λ w. refl }

read_entries_db :
    (f m : ℕ) (ms : List (Option EditEvent)) (w : World) → (read_entries f m ms w).1.db ≡ w.db
unfolding read_entries
read_entries_db f m [] w = refl
read_entries_db f m (none ∷ ms) w = ground (arith, read_entries_db f m ms (called w))
read_entries_db f m (some e ∷ ms) w = ground (arith, read_entries_db f m ms (called w))

pub read_history_entries-LeavesDb : (f m : ℕ) → LeavesDb (read_history_entries f m)
unfolding read_history_entries
read_history_entries-LeavesDb f m = record {
  at = λ w. read_entries_db f m w.edit_events (called w);
}

replay_events_db :
    (env : Env) (f t : ℕ) (ms : List (Option EditEvent)) (doc : env.Doc) (w : World)
    → (replay_events env f t ms doc w).1.db ≡ w.db
unfolding replay_events
replay_events_db env f t [] doc w = refl
replay_events_db env f t (none ∷ ms) doc w =
    ground (arith, replay_events_db env f t ms doc (called w))
replay_events_db env f t (some e ∷ ms) doc w = ground (
  arith,
  replay_events_db env f t ms doc (called w),
  replay_events_db env f t ms (env.apply_update doc e.yjs_blob) (called w),
)

pub replay_yjs_to_version-LeavesDb :
    (env : Env) (f t : ℕ) → LeavesDb (replay_yjs_to_version env f t)
unfolding replay_yjs_to_version
replay_yjs_to_version-LeavesDb env f t = record {
  at = λ w. replay_events_db env f t w.edit_events env.new_doc (called w);
}

module _ {I : Db → Type 0} where
  pub KeepsStep-start_tasks :
      (r f u : ℕ) (s : Bytes) (v : ℕ) (t : String) → KeepsStep (OfDb I) (start_tasks r f u s v t)
  unfolding start_tasks
  KeepsStep-start_tasks r f u s v t = record { at = λ w h. record { tables = h.tables } }

  pub KeepsStep-start_backfill :
      (r f v : ℕ) (t : String) → KeepsStep (OfDb I) (start_backfill r f v t)
  unfolding start_backfill
  KeepsStep-start_backfill r f v t = record { at = λ w h. record { tables = h.tables } }

  pub Keeps-drop_contents : (ids : List ℕ) → Keeps (OfDb I) (drop_contents ids)
  unfolding drop_contents
  Keeps-drop_contents [] = Keeps-pure tt
  Keeps-drop_contents (id ∷ ids) =
      Keeps-bind _ _ (Keeps-ignoring _ _ (KeepsCall-mongo _ (drop_document-LeavesDb id))) (λ _.
        Keeps-bind _ _ (Keeps-ignoring _ _ (KeepsCall-mongo _ (drop_file_snapshots-LeavesDb id)))
          (λ _. Keeps-drop_contents ids))

pub ruleset leaves = (
  KeepsCall-mongo, Keeps-perform, read_history_entries-LeavesDb, replay_yjs_to_version-LeavesDb,
  save_new_document-LeavesDb, drop_documents-LeavesDb, drop_snapshots-LeavesDb,
  drop_document-LeavesDb, drop_file_snapshots-LeavesDb, latest_of-LeavesDb, store_state-LeavesDb,
  document_of-LeavesDb, execution_of-LeavesDb, snapshot_of-LeavesDb, KeepsStep-start_tasks,
  KeepsStep-start_backfill, Keeps-drop_contents,
)
