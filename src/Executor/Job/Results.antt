-- ===== src/Executor/Job/Results.antt =====
-- What runExecution of backend/cmd/executor/main.go leaves where no call fails.
use pairly.Prelude.{
  ℕ, ◌+◌, String, ◌≡◌, refl, ap, ◌∙◌, false, Option, none, some, List, [], ◌∷◌, ◌++◌, arith,
  string_eq, nat_eq, find,
}
use pairly.Mongo.Executions.{ExecutionResult, save_execution, get_last_execution}
use pairly.World.Env.{Env}
use pairly.World.Message.{Channel, room_channel, Event}
use pairly.World.State.{World, publish, mongo}
use pairly.Executor.Lock.{del}
use pairly.Executor.Container.{Docker, RunResult, run_container}
use pairly.Executor.Tree.{Built, reconstruct_file_tree}
use pairly.Executor.Tree.Untouched.{reconstruct_file_tree-still}
use pairly.Executor.Job.{
  Job, Executor, publish_error, release, done_event, execution_of_job, store_execution, finish_run,
  fail_run, after_container, after_tree, run_execution,
}

get_last_execution-save_execution :
    (r : ExecutionResult) (es : List ExecutionResult)
    → get_last_execution r.file_id (save_execution r es) ≡ some r
unfolding get_last_execution save_execution find
get_last_execution-save_execution r [] = ground arith
get_last_execution-save_execution r (e ∷ es) =
    ground (arith, get_last_execution-save_execution r es)

-- The result of the container, if the tree was built and the container ran.
abbrev pub result_of : Docker → Option Built → Option RunResult
result_of docker none = none
result_of docker (some b) = run_container docker b.entry_path b.language

abbrev pub event_of : Job → Option RunResult → Event
event_of job none = Event.execution_error job.file_id "internal_error"
event_of job (some r) = done_event job r

abbrev pub last_of : Job → ℕ → Option RunResult → Option ExecutionResult → Option ExecutionResult
last_of job now none old = old
last_of job now (some r) old = some (execution_of_job job r now)

-- The one event, the last execution of the file, and the keys, after a run with the result.
record IsReported (job : Job) (o : Option RunResult) (e f : Executor) : Type 0 where
  published :
      f.world.published
      ≡ e.world.published
        ++ record { channel = room_channel job.room_id; event = event_of job o } ∷ []
  last :
      get_last_execution job.file_id f.world.executions
      ≡ last_of job e.world.db.now o (get_last_execution job.file_id e.world.executions)
  locks : f.locks ≡ del job.room_id job.file_id e.locks

abbrev IsReliable : World → Type 0
IsReliable w = (n : ℕ) → w.faults n ≡ false

fail_run-IsReported :
    (job : Job) (e : Executor) → IsReliable e.world → IsReported job none e (fail_run job e)
unfolding fail_run release publish_error publish
fail_run-IsReported job e h =
    rw (h e.world.calls, h (e.world.calls + 1))
      (record { published = refl; last = refl; locks = refl })

-- The execution that is saved after an event that was published.
store_execution-executions :
    (job : Job) (r : RunResult) (w : World)
    → w.faults w.calls ≡ false
    → (store_execution job r w).executions
      ≡ save_execution (execution_of_job job r w.db.now) w.executions
unfolding store_execution mongo
store_execution-executions job r w h = ground arith

release-executions :
    (job : Job) (e : Executor) → (release job e).world.executions ≡ e.world.executions
unfolding release
release-executions job e = ground arith

-- The world, but for what was published and the number of calls.
abbrev unsaid : World → World
unsaid w = record w { published = []; calls = 0 }

publish-still : (c : Channel) (event : Event) (w : World) → unsaid (publish c event w) ≡ unsaid w
unfolding publish
publish-still c event w = ground arith

finish_run-executions :
    (job : Job) (language : String) (r : RunResult) (e : Executor)
    → IsReliable e.world
    → (finish_run job language r e).world.executions
      ≡ save_execution (execution_of_job job r e.world.db.now) e.world.executions
unfolding finish_run
finish_run-executions job language r e h =
    let w = publish (room_channel job.room_id) (done_event job r) e.world in
    let sent = publish-still (room_channel job.room_id) (done_event job r) e.world in
    let fine = ap (λ v. v.faults w.calls) sent ∙ h w.calls in
    release-executions job _
    ∙ store_execution-executions job r w fine
    ∙ ap (λ v. save_execution (execution_of_job job r v.db.now) v.executions) sent

finish_run-IsReported :
    (job : Job) (language : String) (r : RunResult) (e : Executor)
    → IsReliable e.world
    → IsReported job (some r) e (finish_run job language r e)
unfolding finish_run release store_execution mongo publish execution_of_job
finish_run-IsReported job language r e h =
    let a = h e.world.calls in
    let b = h (e.world.calls + 1) in
    let c = h (e.world.calls + 1 + 1) in
    record {
      published = ground (arith, a, b, c);
      last =
          ap (λ es. get_last_execution job.file_id es) (finish_run-executions job language r e h)
          ∙ get_last_execution-save_execution (execution_of_job job r e.world.db.now)
              e.world.executions;
      locks = ground (arith, a, b, c);
    }

after_container-IsReported :
    (job : Job) (language : String) (o : Option RunResult) (e : Executor)
    → IsReliable e.world
    → IsReported job o e (after_container job language o e)
unfolding after_container
after_container-IsReported job language none e h = fail_run-IsReported job e h
after_container-IsReported job language (some r) e h = finish_run-IsReported job language r e h

after_tree-IsReported :
    (docker : Docker) (job : Job) (o : Option Built) (e : Executor)
    → IsReliable e.world
    → IsReported job (result_of docker o) e (after_tree docker job o e)
unfolding after_tree
after_tree-IsReported docker job none e h = fail_run-IsReported job e h
after_tree-IsReported docker job (some b) e h =
    after_container-IsReported job b.language (run_container docker b.entry_path b.language) e h

-- While no call of a database, a broker or the disk fails (the container may), runExecution
-- publishes exactly one event to the room, deletes the key of the file, and changes no execution
-- of the file but this: with a result of the container, the event is execution_done and
-- GetLastExecution of the file finds the result; without one, the event is execution_error with
-- internal_error and GetLastExecution finds what it found before.
pub run_execution-published :
    (env : Env) (docker : Docker) (job : Job) (e : Executor)
    → ((n : ℕ) → e.world.faults n ≡ false)
    → let built = (reconstruct_file_tree env job.room_id job.execution_id job.file_id e.world).0 in
      let o = result_of docker built in
      let f = run_execution env docker job e in
      (f.world.published
        ≡ e.world.published
          ++ record { channel = room_channel job.room_id; event = event_of job o } ∷ [])
      × (get_last_execution job.file_id f.world.executions
          ≡ last_of job e.world.db.now o (get_last_execution job.file_id e.world.executions))
      × (f.locks ≡ del job.room_id job.file_id e.locks)
unfolding run_execution
run_execution-published env docker job e h =
    let (built, w) = reconstruct_file_tree env job.room_id job.execution_id job.file_id e.world in
    let same = reconstruct_file_tree-still env job.room_id job.execution_id job.file_id e.world in
    let x =
      after_tree-IsReported docker job built (record e { world = w })
        (λ n. ap (λ w. w.faults n) same ∙ h n) in
    (
      x.published
          ∙ ap
              (λ w.
                w.published
                ++ record {
                  channel = room_channel job.room_id;
                  event = event_of job (result_of docker built);
                }
                  ∷ [])
              same,
      x.last
          ∙ ap
              (λ w.
                last_of job w.db.now (result_of docker built)
                  (get_last_execution job.file_id w.executions))
              same,
      x.locks,
    )
