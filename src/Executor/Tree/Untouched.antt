-- ===== src/Executor/Tree/Untouched.antt =====
-- What a reconstruction of backend/internal/executor/builder.go changes of the world.
use pairly.Prelude.{
  ℕ, suc, String, ◌≡◌, refl, ◌∙◌, Bool, not, Option, none, List, [], ◌∷◌, arith, string_eq, nat_eq,
  length, keep, All,
}
use pairly.Outcome.{Outcome, row, no_rows, failed, hang}
use pairly.Postgres.Schema.{File}
use pairly.Postgres.Files.{get_files_for_room}
use pairly.World.Env.{Env}
use pairly.World.State.{World, query, mongo}
use pairly.Rooms.StateHandler.{document_of}
use pairly.Executor.Paths.{FilePath}
use pairly.Executor.Tree.Walks.{if_lem, WalkedAll, walk_tree-WalkedAll}
use pairly.Executor.Tree.{
  Disk, make, Walked, done, os_error, out_of_fuel, Contents, build_tree, walk_tree, Built,
  finish_walk, write_tree, temp_dir, load_contents, build_files, after_files, reconstruct_file_tree,
}

-- The world, but for the number of calls.
abbrev pub still : World → World
still w = record w { calls = 0 }

All-any : {A : Type 0} (xs : List A) → All (λ x. Unit {0}) xs
All-any [] = tt
All-any (x ∷ xs) = (tt, All-any xs)

make-still :
    (path : FilePath) (text : Option String) (d : Disk)
    → still (make path text d).1.world ≡ still d.world
unfolding make
make-still path text d = ground arith

walk_tree-still :
    (v : World) (fuel : ℕ) (files : List File) (contents : Contents) (file_id : ℕ)
    (nodes : List File) (path : FilePath) (d : Disk)
    → still d.world ≡ v
    → WalkedAll (λ d. still d.world ≡ v) (walk_tree fuel files contents file_id nodes path d)
walk_tree-still v fuel files contents file_id nodes path d e =
    walk_tree-WalkedAll (λ d. still d.world ≡ v) (λ path. Unit) (λ n. Unit)
      (λ path text d u h. make-still path text d ∙ h) (λ file_id n path d h. ground arith)
      (λ path n u q. tt) fuel files contents file_id nodes path d (All-any files) (All-any nodes) tt
      e

finish_walk-still :
    (v : World) (dir : FilePath) (language : String) (r : Walked) (w : World)
    → WalkedAll (λ d. still d.world ≡ v) r
    → still w ≡ v
    → still (finish_walk dir language r (none, w)).1 ≡ v
unfolding finish_walk
finish_walk-still v dir language (done d) w h e = h
finish_walk-still v dir language (os_error d) w h e = h
finish_walk-still v dir language out_of_fuel w h e = e

write_tree-still :
    (files : List File) (contents : Contents) (file_id : ℕ) (dir : FilePath) (language : String)
    (w : World)
    → still (write_tree files contents file_id dir language w).1 ≡ still w
unfolding write_tree
write_tree-still files contents file_id dir language w =
    let start : Disk = record { world = w; made = []; entry_path = [] } in
    let d = (make dir none start).1 in
    let same = make-still dir none start in
    if_lem {A = Option Built × World} (λ r. still r.1 ≡ still w) (not (make dir none start).0) same
      (finish_walk-still (still w) dir language _ d.world
        (walk_tree-still (still w) (suc (length files)) files contents file_id (build_tree files)
          dir d same)
        same)

mongo-still : (file_id : ℕ) (w : World) → still (mongo (document_of file_id) w).1 ≡ still w
unfolding mongo document_of
mongo-still file_id w = ground arith

load_contents-still :
    (env : Env) (files : List File) (w : World) → still (load_contents env files w).1 ≡ still w
unfolding load_contents
load_contents-still env [] w = refl
load_contents-still env (f ∷ fs) w =
    if_lem {A = (Bool × Contents) × World} (λ r. still r.1 ≡ still w) f.is_folder
      (load_contents-still env fs w)
      (load_contents-still env fs (mongo (document_of f.id) w).1 ∙ mongo-still f.id w)

build_files-still :
    (env : Env) (id : String) (file : ℕ) (rows : List File) (w : World)
    → still (build_files env id file rows w).1 ≡ still w
unfolding build_files
build_files-still env id file rows w =
    let active = keep (λ f. f.is_active) rows in
    let loaded = load_contents-still env active w in
    if_lem {A = Option Built × World} (λ r. still r.1 ≡ still w) (load_contents env active w).0.0
      (write_tree-still active _ file (temp_dir id) _ (load_contents env active w).1 ∙ loaded)
      loaded

after_files-still :
    (env : Env) (id : String) (file : ℕ) (o : Outcome (List File)) (w : World)
    → still (after_files env id file o w).1 ≡ still w
unfolding after_files
after_files-still env id file (row rows) w = build_files-still env id file rows w
after_files-still env id file no_rows w = refl
after_files-still env id file failed w = refl
after_files-still env id file hang w = refl

query-still :
    (env : Env) (room : ℕ) (w : World)
    → still (query (get_files_for_room env.name_le room) w).1 ≡ still w
unfolding query get_files_for_room
query-still env room w = ground arith

pub reconstruct_file_tree-still :
    (env : Env) (room : ℕ) (id : String) (file : ℕ) (w : World)
    → still (reconstruct_file_tree env room id file w).1 ≡ still w
unfolding reconstruct_file_tree
reconstruct_file_tree-still env room id file w =
    after_files-still env id file _ (query (get_files_for_room env.name_le room) w).1
    ∙ query-still env room w
