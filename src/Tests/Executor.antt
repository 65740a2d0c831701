-- ===== src/Tests/Executor.antt =====
-- The theorems of the executor, on the room of Fixtures.
use pairly.Prelude.{
  suc, ◌≢◌, ◌≤◌, ◌≡◌, refl, true, false, none, some, [], ◌∷◌, ◌++◌, string_eq, nat_eq, length, keep,
  any, find, All,
}
use pairly.Mongo.Executions.{get_last_execution}
use pairly.World.Message.{room_channel}
use pairly.World.State.{query, mongo}
use pairly.Postgres.Files.{get_files_for_room, order_files, insert_ordered, comes_first}
use pairly.Rooms.StateHandler.{document_of}
use pairly.Mongo.Documents.{load_document}
use pairly.Executor.Lock.{del, is_held, set_nx}
use pairly.Executor.Container.{
  Docker, timed_out, RunResult, killed_text, take, max_output, exit_code_of, run_container,
  lang_configs, output_of, cut_output,
}
use pairly.Executor.Container.Bounds.{run_container-take}
use pairly.Executor.Paths.{
  concat, IsUnder, no_slash, is_plain, join, push_all, push, split_slash, cons_first, trim_prefix,
  path_text,
}
use pairly.Executor.Tree.{
  Disk, out_of_fuel, Built, reconstruct_file_tree, after_files, build_files, load_contents,
  add_content, write_tree, make, walk_tree, for_nodes, visit_node, content_of, node_children,
  build_tree, entry_language, temp_dir, finish_walk, entry_of_walk, decode_yjs_to_text,
}
use pairly.Executor.Tree.Ends.{walk_tree-build_tree}
use pairly.Executor.Tree.Ends.Chains.{IsKeyed}
use pairly.Executor.Tree.Contained.{reconstruct_file_tree-IsUnder}
use pairly.Executor.Job.{Job, Executor, execute, run_execution}
use pairly.Executor.Job.Exclusion.{call, here, next, is_job_of, Reach-is_job_of}
use pairly.Executor.Job.Results.{result_of, event_of, last_of, run_execution-published}
use pairly.Tests.Fixtures.{env, world, files}

-- A container that prints "hi" and is stopped after 30 seconds.
abbrev slow : Docker
slow = record {
  creates = λ cfg cmd. true;
  starts = true;
  wait = timed_out;
  logs = some (104 ∷ 105 ∷ []);
  duration_ms = 30000;
}

abbrev slow_result : RunResult
slow_result = record { output = 104 ∷ 105 ∷ killed_text; exit_code = none; duration_ms = 30000 }

slow_runs : run_container slow "a.py" "python" ≡ some slow_result
unfolding run_container lang_configs exit_code_of output_of cut_output max_output
slow_runs = refl

run_container-take_example :
    (slow_result.output ≡ take max_output (104 ∷ 105 ∷ []) ++ killed_text)
    × (slow_result.exit_code ≡ exit_code_of timed_out)
    × (length slow_result.output ≤ 51258)
run_container-take_example =
    run_container-take slow "a.py" "python" (104 ∷ 105 ∷ []) slow_result refl slow_runs

abbrev job : Job
job = record { room_id = 10; file_id = 21; execution_id = "x1" }

abbrev executor : Executor
executor = record { world = world; locks = []; running = []; unsent = []; execution_events = [] }

run_execution-published_example :
    let built = (reconstruct_file_tree env 10 "x1" 21 world).0 in
    let o = result_of slow built in
    let f = run_execution env slow job executor in
    (f.world.published ≡ [] ++ record { channel = room_channel 10; event = event_of job o } ∷ [])
    × (get_last_execution 21 f.world.executions ≡ last_of job 5 o (get_last_execution 21 []))
    × (f.locks ≡ del 10 21 [])
run_execution-published_example = run_execution-published env slow job executor (λ n. refl)

-- One call of Execute.
abbrev after_call : Executor
after_call = (execute job executor).1

runs_one : after_call.running ≡ [] ++ job ∷ []
unfolding execute set_nx is_held any del keep
runs_one = refl

Reach-is_job_of_example : any (is_job_of job) ([] ++ []) ≡ false
Reach-is_job_of_example =
    Reach-is_job_of env executor after_call job [] [] refl (next here (call executor job)) runs_one

plain_names : All (λ f. is_plain f.name ≡ true) files
unfolding is_plain no_slash
plain_names = (refl, (refl, (refl, (refl, (refl, tt)))))

-- The directory of the execution and what is in it: src, src/docs and three files.
abbrev built : Built
built = record {
  entry_path = "src/a.py";
  language = "python";
  made =
      ("exec-x1" ∷ "tmp" ∷ [], none)
      ∷ ("src" ∷ "exec-x1" ∷ "tmp" ∷ [], none)
      ∷ ("docs" ∷ "src" ∷ "exec-x1" ∷ "tmp" ∷ [], none)
      ∷ ("b.py" ∷ "docs" ∷ "src" ∷ "exec-x1" ∷ "tmp" ∷ [], some "")
      ∷ ("a.py" ∷ "src" ∷ "exec-x1" ∷ "tmp" ∷ [], some "a")
      ∷ ("main.py" ∷ "exec-x1" ∷ "tmp" ∷ [], some "")
      ∷ [];
}

plain_id : no_slash "x1" ≡ true
unfolding no_slash
plain_id = refl

builds : (reconstruct_file_tree env 10 "x1" 21 world).0 ≡ some built
unfolding reconstruct_file_tree after_files build_files load_contents add_content write_tree make
    walk_tree for_nodes visit_node content_of node_children build_tree entry_language temp_dir
    finish_walk entry_of_walk decode_yjs_to_text query mongo get_files_for_room order_files
    insert_ordered comes_first document_of load_document join push_all push split_slash cons_first
    trim_prefix path_text keep any find
builds = refl

reconstruct_file_tree-IsUnder_example :
    All (λ m. IsUnder (concat "exec-" "x1" ∷ "tmp" ∷ []) m.0) built.made
reconstruct_file_tree-IsUnder_example =
    reconstruct_file_tree-IsUnder env 10 "x1" 21 world built plain_names plain_id builds

keyed : IsKeyed files
unfolding find
keyed = (refl, (refl, (refl, (refl, (refl, tt)))))

abbrev empty_disk : Disk
empty_disk = record { world = world; made = []; entry_path = [] }

walk_tree-build_tree_example :
    walk_tree (suc (length files)) files [] 21 (build_tree files) ("tmp" ∷ []) empty_disk
    ≢ out_of_fuel
walk_tree-build_tree_example = walk_tree-build_tree files [] 21 ("tmp" ∷ []) empty_disk keyed
