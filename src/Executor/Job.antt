-- ===== src/Executor/Job.antt =====
-- backend/cmd/executor/main.go: the call that starts an execution, and the goroutine that runs it.
-- Spans, metrics and log lines are left out, and so is the removal of the directory at the end.
pub mod Exclusion
pub mod Results
use pairly.Prelude.{
  ℕ, zero, suc, ◌+◌, ◌-◌, ◌*◌, ◌≤◌, ◌<◌, String, ◌≡◌, refl, sym, ap, subst, ◌∙◌, ◌≢◌, ◌↔◌, ◌⊎◌, inl,
  inr, Bool, true, false, not, ◌&&◌, ◌||◌, Option, none, some, List, [], ◌∷◌, ◌++◌, map, arith, ltb,
  leb, if◌then◌else◌, Comparable, string_eq, nat_eq, Bool-cases, ◌==◌, ==_iff, ==_refl,
  Option-cases, length, keep, any, find, update, All, length-append, All-keep, All-append,
}
use pairly.Mongo.Documents.{Bytes}
use pairly.Mongo.Executions.{ExecutionResult, save_execution}
use pairly.World.Env.{Env}
use pairly.World.Message.{Channel, room_channel, Event}
use pairly.World.State.{World, DeadLetter, fault, called, publish, mongo}
use pairly.Executor.Lock.{Lock, set_nx, del}
use pairly.Executor.Container.{Docker, RunResult, run_container}
use pairly.Executor.Tree.{Built, reconstruct_file_tree}

-- pb.ExecuteRequest
pub record Job : Type 0 where
  pub room_id : ℕ
  pub file_id : ℕ
  pub execution_id : String

-- kafka.ExecutionEvent
pub record ExecutionEvent : Type 0 where
  pub execution_id : String
  pub room_id : ℕ
  pub file_id : ℕ
  pub language : String
  pub output : Bytes
  pub exit_code : Option ℕ
  pub duration_ms : ℕ
  pub executed_at : ℕ

-- The goroutines of runExecution that have not run yet, those that it leaves to write an event to
-- Kafka, and the topic execution-events.
pub record Executor : Type 0 where
  pub world : World
  pub locks : List Lock
  pub running : List Job
  pub unsent : List ExecutionEvent
  pub execution_events : List ExecutionEvent

-- `started` is no error, `already_running` is codes.ResourceExhausted, `lock_check_failed` any other.
pub data Reply : Type 0 where
  started already_running lock_check_failed : Reply

-- Execute
unfoldable pub execute : Job → Executor → Reply × Executor
execute job e =
    if fault e.world
    then (lock_check_failed, record e { world = called e.world })
    else let (acquired, locks) = set_nx e.world.db.now job.room_id job.file_id 30 e.locks in
      if acquired
      then (started, record e { world = called e.world; locks = locks; running = job ∷ e.running })
      else (already_running, record e { world = called e.world })

-- publishError
unfoldable pub publish_error : Job → String → World → World
publish_error job reason w =
    publish (room_channel job.room_id) (Event.execution_error job.file_id reason) w

-- The deferred Del, whose error is only logged.
unfoldable pub release : Job → Executor → Executor
release job e =
    if fault e.world
    then record e { world = called e.world }
    else record e { world = called e.world; locks = del job.room_id job.file_id e.locks }

-- len(result.Output) >= 50*1024
abbrev pub is_truncated : RunResult → Bool
is_truncated r = leb 51200 (length r.output)

unfoldable pub done_event : Job → RunResult → Event
done_event job r =
    Event.execution_done job.file_id job.room_id r.exit_code r.duration_ms r.output (is_truncated r)

unfoldable pub execution_of_job : Job → RunResult → ℕ → ExecutionResult
execution_of_job job r now = record {
  execution_id = job.execution_id;
  room_id = job.room_id;
  file_id = job.file_id;
  output = r.output;
  exit_code = r.exit_code;
  duration_ms = r.duration_ms;
  truncated = is_truncated r;
  executed_at = now;
}

-- SaveExecution, whose error is only logged.
unfoldable pub store_execution : Job → RunResult → World → World
store_execution job r w =
    (mongo
      (λ v. (
        tt,
        record v { executions = save_execution (execution_of_job job r v.db.now) v.executions },
      ))
      w).1

unfoldable pub sent_event : Job → String → RunResult → ℕ → ExecutionEvent
sent_event job language r now = record {
  execution_id = job.execution_id;
  room_id = job.room_id;
  file_id = job.file_id;
  language = language;
  output = r.output;
  exit_code = r.exit_code;
  duration_ms = r.duration_ms;
  executed_at = now;
}

-- runExecution after a container that returned a result.
unfoldable pub finish_run : Job → String → RunResult → Executor → Executor
finish_run job language r e =
    let published = publish (room_channel job.room_id) (done_event job r) e.world in
    release job (record e {
      world = store_execution job r published;
      unsent = e.unsent ++ sent_event job language r e.world.db.now ∷ [];
    })

unfoldable pub fail_run : Job → Executor → Executor
fail_run job e = release job (record e { world = publish_error job "internal_error" e.world })

-- runExecution after the container.
unfoldable pub after_container : Job → String → Option RunResult → Executor → Executor
after_container job language none e = fail_run job e
after_container job language (some r) e = finish_run job language r e

-- runExecution after the tree of files.
unfoldable pub after_tree : Docker → Job → Option Built → Executor → Executor
after_tree docker job none e = fail_run job e
after_tree docker job (some b) e =
    after_container job b.language (run_container docker b.entry_path b.language) e

-- runExecution
unfoldable pub run_execution : Env → Docker → Job → Executor → Executor
run_execution env docker job e =
    let (built, w) = reconstruct_file_tree env job.room_id job.execution_id job.file_id e.world in
    after_tree docker job built (record e { world = w })

-- The goroutine that writes the event, with the time at which it runs, or else a dead letter.
unfoldable pub send_event : (ExecutionEvent → Bytes) → ExecutionEvent → Executor → Executor
send_event marshal event e =
    let stamped = record event { executed_at = e.world.db.now } in
    let w = called e.world in
    if fault e.world
    then record e {
      world = if fault w then called w else record w {
        dead_letters =
            w.dead_letters
            ++ record { original_topic = "execution-events"; payload = marshal stamped } ∷ [];
        calls = w.calls + 1;
      };
    }
    else record e { world = w; execution_events = e.execution_events ++ stamped ∷ [] }
