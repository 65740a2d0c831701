-- ===== src/Executor/Job/Exclusion.antt =====
-- The lock of backend/cmd/executor/main.go over time: calls, jobs that end, and a clock.
use pairly.Prelude.{
  ℕ, ◌+◌, String, ◌≡◌, refl, ap, subst, ◌∙◌, ◌⊎◌, inl, inr, Bool, true, false, ◌&&◌, Option, none,
  some, List, [], ◌∷◌, ◌++◌, arith, string_eq, nat_eq, Bool-cases, ◌==◌, ==_iff, any, All, All-map,
}
use pairly.World.Env.{Env}
use pairly.World.Message.{room_channel}
use pairly.World.State.{World, fault, publish, mongo}
use pairly.Executor.Lock.{
  Lock, is_held, set_nx, del, is_held-del, is_held-set_nx, is_held-set_nx_new,
}
use pairly.Executor.Container.{Docker, RunResult}
use pairly.Executor.Job.{
  Job, Executor, execute, run_execution, finish_run, fail_run, release, after_container, after_tree,
  publish_error, done_event, sent_event, store_execution,
}
use pairly.Executor.Tree.{Built, reconstruct_file_tree}
use pairly.Executor.Tree.Untouched.{reconstruct_file_tree-still}

abbrev pub is_job_of : Job → Job → Bool
is_job_of j k = k.room_id == j.room_id && k.file_id == j.file_id

-- The key of the job is in Redis at the time.
abbrev pub IsLocked : ℕ → List Lock → Job → Type 0
IsLocked now locks j = is_held now j.room_id j.file_id locks ≡ true

-- A call; the end of a job, on any branch of runExecution; anything else that changes the world but
-- not the clock; and the clock, as long as no key expires before its job has ended.
pub data Step (env : Env) : Executor → Executor → Type 0 where
  call : (e : Executor) (job : Job) → Step env e (execute job e).1
  finish :
      (e : Executor) (docker : Docker) (before after : List Job) (job : Job)
      → e.running ≡ before ++ job ∷ after
      → Step env e (run_execution env docker job (record e { running = before ++ after }))
  elsewhere :
      (e : Executor) (w : World) → w.db.now ≡ e.world.db.now → Step env e (record e { world = w })
  tick :
      (e : Executor) (n : ℕ)
      → All (IsLocked (e.world.db.now + n) e.locks) e.running
      → Step env e (record e {
        world = record e.world { db = record e.world.db { now = e.world.db.now + n } };
      })

pub data Reach (env : Env) (e : Executor) : Executor → Type 0 where
  here : Reach env e e
  next : {f g : Executor} → Reach env e f → Step env f g → Reach env e g

-- No two of the jobs are of the same file.
IsDistinct : List Job → Type 0
IsDistinct [] = Unit
IsDistinct (j ∷ js) = (any (is_job_of j) js ≡ false) × IsDistinct js

record IsExclusive (now : ℕ) (locks : List Lock) (running : List Job) : Type 0 where
  distinct : IsDistinct running
  locked : All (IsLocked now locks) running

abbrev IsExclusiveAt : Executor → Type 0
IsExclusiveAt e = IsExclusive e.world.db.now e.locks e.running

-- A job whose key is not in Redis is of no file that is running.
not_running :
    (now : ℕ) (locks : List Lock) (job : Job) (js : List Job)
    → is_held now job.room_id job.file_id locks ≡ false
    → All (IsLocked now locks) js
    → any (is_job_of job) js ≡ false
unfolding any
not_running now locks job [] h a = refl
not_running now locks job (j ∷ js) h a = elim (Bool-cases (is_job_of job j)) [
  | inl e ↦
      absurd (grind (arith, a.0, h, ==_iff j.room_id job.room_id, ==_iff j.file_id job.file_id))
  | inr e ↦ ground (arith, not_running now locks job js h a.1)
]

call-IsExclusive :
    (now : ℕ) (locks : List Lock) (job : Job) (js : List Job)
    → (set_nx now job.room_id job.file_id 30 locks).0 ≡ true
    → IsExclusive now locks js
    → IsExclusive now (set_nx now job.room_id job.file_id 30 locks).1 (job ∷ js)
unfolding IsDistinct
call-IsExclusive now locks job js h x =
    let (free, held) = is_held-set_nx_new now job.room_id job.file_id 30 locks (omega arith) h in
    record {
      distinct = (not_running now locks job js free x.locked, x.distinct);
      locked = (
        held,
        All-map (λ j l. is_held-set_nx now job.room_id job.file_id 30 j.room_id j.file_id locks l)
            js x.locked,
      );
    }

any_without :
    (j : Job) (before after : List Job) (job : Job)
    → any (is_job_of j) (before ++ job ∷ after) ≡ false
    → (any (is_job_of j) (before ++ after) ≡ false) × (is_job_of j job ≡ false)
unfolding any
any_without j [] after job h = (ground arith, ground arith)
any_without j (k ∷ before) after job h =
    let (rest, apart) = any_without j before after job (ground arith) in (ground arith, apart)

-- The others of a list without one of its jobs.
others-IsDistinct :
    (before after : List Job) (job : Job)
    → IsDistinct (before ++ job ∷ after)
    → IsDistinct (before ++ after) × (any (is_job_of job) (before ++ after) ≡ false)
unfolding IsDistinct any
others-IsDistinct [] after job d = (d.1, d.0)
others-IsDistinct (j ∷ before) after job d =
    let (rest, other) = others-IsDistinct before after job d.1 in
    let (same, apart) = any_without j before after job d.0 in
    (
      (same, rest),
      grind (
        arith,
        other,
        apart,
        ==_iff j.room_id job.room_id,
        ==_iff j.file_id job.file_id,
        ==_iff job.room_id j.room_id,
        ==_iff job.file_id j.file_id,
      ),
    )

All-without :
    (P : Job → Type 0) (before after : List Job) (job : Job)
    → All P (before ++ job ∷ after)
    → All P (before ++ after)
All-without P [] after job a = a.1
All-without P (j ∷ before) after job a = (a.0, All-without P before after job a.1)

del-IsLocked :
    (now : ℕ) (locks : List Lock) (job : Job) (js : List Job)
    → any (is_job_of job) js ≡ false
    → All (IsLocked now locks) js
    → All (IsLocked now (del job.room_id job.file_id locks)) js
unfolding any
del-IsLocked now locks job [] n a = tt
del-IsLocked now locks job (j ∷ js) n a = (
  is_held-del now job.room_id job.file_id j.room_id j.file_id locks (ground arith) ∙ a.0,
  del-IsLocked now locks job js (ground arith) a.1,
)

-- What the end of a job does: its key is deleted or not.
record IsEnded (job : Job) (e f : Executor) : Type 0 where
  now : f.world.db.now ≡ e.world.db.now
  running : f.running ≡ e.running
  locks : (f.locks ≡ e.locks) ⊎ (f.locks ≡ del job.room_id job.file_id e.locks)

release-IsEnded : (job : Job) (e : Executor) → IsEnded job e (release job e)
unfolding release
release-IsEnded job e = elim (Bool-cases (fault e.world)) [
  | inl h ↦ record { now = ground arith; running = ground arith; locks = inl (ground arith) }
  | inr h ↦ record { now = ground arith; running = ground arith; locks = inr (ground arith) }
]

fail_run-IsEnded : (job : Job) (e : Executor) → IsEnded job e (fail_run job e)
unfolding fail_run publish_error publish
fail_run-IsEnded job e =
    let r = release-IsEnded job (record e { world = publish_error job "internal_error" e.world }) in
    record { now = r.now ∙ ground arith; running = r.running; locks = r.locks }

finish_run-IsEnded :
    (job : Job) (language : String) (r : RunResult) (e : Executor)
    → IsEnded job e (finish_run job language r e)
unfolding finish_run store_execution mongo publish
finish_run-IsEnded job language r e =
    let published = publish (room_channel job.room_id) (done_event job r) e.world in
    let ended = release-IsEnded job (record e {
      world = store_execution job r published;
      unsent = e.unsent ++ sent_event job language r e.world.db.now ∷ [];
    }) in
    record { now = ended.now ∙ ground arith; running = ended.running; locks = ended.locks }

after_container-IsEnded :
    (job : Job) (language : String) (o : Option RunResult) (e : Executor)
    → IsEnded job e (after_container job language o e)
unfolding after_container
after_container-IsEnded job language none e = fail_run-IsEnded job e
after_container-IsEnded job language (some r) e = finish_run-IsEnded job language r e

after_tree-IsEnded :
    (docker : Docker) (job : Job) (o : Option Built) (e : Executor)
    → IsEnded job e (after_tree docker job o e)
unfolding after_tree
after_tree-IsEnded docker job none e = fail_run-IsEnded job e
after_tree-IsEnded docker job (some b) e = after_container-IsEnded job b.language _ e

run_execution-IsEnded :
    (env : Env) (docker : Docker) (job : Job) (e : Executor)
    → IsEnded job e (run_execution env docker job e)
unfolding run_execution
run_execution-IsEnded env docker job e =
    let (built, w) = reconstruct_file_tree env job.room_id job.execution_id job.file_id e.world in
    let same = reconstruct_file_tree-still env job.room_id job.execution_id job.file_id e.world in
    let ended = after_tree-IsEnded docker job built (record e { world = w }) in
    record {
      now = ended.now ∙ ap (λ w. w.db.now) same;
      running = ended.running;
      locks = ended.locks;
    }

IsEnded-IsExclusive :
    (job : Job) (e f : Executor)
    → IsEnded job e f
    → any (is_job_of job) e.running ≡ false
    → IsExclusiveAt e
    → IsExclusiveAt f
IsEnded-IsExclusive job e f h n x = elim h.locks [
  | inl l ↦ rw (h.now, h.running, l) x
  | inr l ↦
      rw (h.now, h.running, l)
        (record {
          distinct = x.distinct;
          locked = del-IsLocked e.world.db.now e.locks job e.running n x.locked;
        })
]

execute-IsExclusive : (e : Executor) (job : Job) → IsExclusiveAt e → IsExclusiveAt (execute job e).1
unfolding execute
execute-IsExclusive e job x = elim (Bool-cases (fault e.world)) [
  | inl f ↦ rw f x
  | inr f ↦ elim (Bool-cases (set_nx e.world.db.now job.room_id job.file_id 30 e.locks).0) [
    | inl s ↦ rw (f, s) (call-IsExclusive e.world.db.now e.locks job e.running s x)
    | inr s ↦ rw (f, s) x
  ]
]

Step-IsExclusive : {env : Env} {e f : Executor} → Step env e f → IsExclusiveAt e → IsExclusiveAt f
Step-IsExclusive (call e job) x = execute-IsExclusive e job x
Step-IsExclusive {env} (finish e docker before after job r) x =
    let there = subst IsDistinct r x.distinct in
    let held = subst (All (IsLocked e.world.db.now e.locks)) r x.locked in
    let (others, apart) = others-IsDistinct before after job there in
    let e' = record e { running = before ++ after } in
    IsEnded-IsExclusive job e' _ (run_execution-IsEnded env docker job e') apart (record {
      distinct = others;
      locked = All-without (IsLocked e.world.db.now e.locks) before after job held;
    })
Step-IsExclusive (elsewhere e w t) x = rw t x
Step-IsExclusive (tick e n l) x = record { distinct = x.distinct; locked = l }

Reach-IsExclusive : {env : Env} {e f : Executor} → Reach env e f → IsExclusiveAt e → IsExclusiveAt f
Reach-IsExclusive here x = x
Reach-IsExclusive (next r s) x = Step-IsExclusive s (Reach-IsExclusive r x)

-- From an executor without running jobs, whatever keys Redis holds, after every history of calls
-- of Execute, ends of jobs (whatever Docker answers and whichever call fails), other changes of
-- the world, and time in which no key of a running job expires, no two running jobs are of the
-- same file of the same room.
pub Reach-is_job_of :
    (env : Env) (e f : Executor) (job : Job) (before after : List Job)
    → e.running ≡ []
    → Reach env e f
    → f.running ≡ before ++ job ∷ after
    → any (is_job_of job) (before ++ after) ≡ false
unfolding IsDistinct
Reach-is_job_of env e f job before after n r s =
    let start : IsExclusiveAt e = record { distinct = rw n tt; locked = rw n tt } in
    let x = Reach-IsExclusive r start in
    (others-IsDistinct before after job (subst IsDistinct s x.distinct)).1
