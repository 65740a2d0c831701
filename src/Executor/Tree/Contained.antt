-- ===== src/Executor/Tree/Contained.antt =====
-- Where backend/internal/executor/builder.go writes.
use pairly.Prelude.{
  ℕ, suc, ◌<◌, String, ◌≡◌, sym, ap, subst, inl, inr, Bool, true, false, not, Option, none, some,
  List, [], ◌∷◌, arith, string_eq, nat_eq, Bool-cases, ◌==◌, length, keep, All, All-keep,
  All-append,
}
use pairly.Postgres.Schema.{File}
use pairly.Postgres.Files.{insert_ordered, order_files, comes_first, get_files_for_room}
use pairly.Text.{rune_count}
use pairly.World.Env.{Env}
use pairly.World.State.{World, fault, query}
use pairly.Outcome.{Outcome, row, no_rows, failed, hang}
use pairly.Executor.Paths.{
  concat, FilePath, join, is_plain, IsUnder, self, below, join-plain, no_slash,
}
use pairly.Executor.Tree.Walks.{if_lem, WalkedAll, walk_tree-WalkedAll}
use pairly.Executor.Tree.{
  Disk, make, Walked, done, os_error, out_of_fuel, Contents, build_tree, note_entry, walk_tree,
  temp_dir, Built, finish_walk, write_tree, reconstruct_file_tree, build_files, after_files,
  load_contents,
}

-- All that was made is the directory or lies below it.
abbrev IsInside : FilePath → List (FilePath × Option String) → Type 0
IsInside dir made = All (λ m. IsUnder dir m.0) made

abbrev HasPlainName : File → Type 0
HasPlainName f = is_plain f.name ≡ true

make-IsInside :
    (dir path : FilePath) (text : Option String) (d : Disk)
    → IsUnder dir path
    → IsInside dir d.made
    → IsInside dir (make path text d).1.made
unfolding make
make-IsInside dir path text d u i = elim (Bool-cases (fault d.world)) [
  | inl e ↦ rw e i
  | inr e ↦ rw e (All-append (λ m. IsUnder dir m.0) d.made ((path, text) ∷ []) i (u, tt))
]

note_entry-IsInside :
    (dir : FilePath) (file_id : ℕ) (n : File) (path : FilePath) (d : Disk)
    → IsInside dir d.made
    → IsInside dir (note_entry file_id n path d).made
note_entry-IsInside dir file_id n path d i = elim (Bool-cases (n.id == file_id)) [
  | inl e ↦ rw e i
  | inr e ↦ rw e i
]

abbrev WalkedInside : FilePath → Walked → Type 0
WalkedInside dir r = WalkedAll (λ d. IsInside dir d.made) r

walk_tree-Inside :
    (dir : FilePath) (fuel : ℕ) (files : List File) (contents : Contents) (file_id : ℕ)
    (nodes : List File) (path : FilePath) (d : Disk)
    → All HasPlainName files
    → All HasPlainName nodes
    → IsUnder dir path
    → IsInside dir d.made
    → WalkedInside dir (walk_tree fuel files contents file_id nodes path d)
walk_tree-Inside dir =
    walk_tree-WalkedAll (λ d. IsInside dir d.made) (IsUnder dir) HasPlainName
      (λ path text d. make-IsInside dir path text d)
      (λ file_id n path d. note_entry-IsInside dir file_id n path d)
      (λ path n u q. subst (IsUnder dir) (sym (join-plain path n.name q)) (below n.name u))

module _ (name_le : String → String → Bool) where
  All-insert_ordered :
      (f : File) (fs : List File)
      → HasPlainName f
      → All HasPlainName fs
      → All HasPlainName (insert_ordered name_le f fs)
  unfolding insert_ordered
  All-insert_ordered f [] p a = (p, tt)
  All-insert_ordered f (g ∷ rest) p a =
      if_lem (All HasPlainName) (comes_first name_le f g) (p, a)
        (a.0, All-insert_ordered f rest p a.1)

  All-order_files :
      (fs : List File) → All HasPlainName fs → All HasPlainName (order_files name_le fs)
  unfolding order_files
  All-order_files [] a = tt
  All-order_files (f ∷ fs) a =
      All-insert_ordered f (order_files name_le fs) a.0 (All-order_files fs a.1)

abbrev BuiltInside : FilePath → Option Built → Type 0
BuiltInside dir none = Unit
BuiltInside dir (some b) = IsInside dir b.made

count_ne : (s t : String) → rune_count t < rune_count s → (s == t) ≡ false
count_ne s t h = elim (Bool-cases (s == t)) [
  | inl e ↦ absurd (omega (arith, ap rune_count ((string_eq.same_iff s t).0 e)))
  | inr e ↦ e
]

temp_dir-plain : (id : String) → no_slash id ≡ true → temp_dir id ≡ concat "exec-" id ∷ "tmp" ∷ []
unfolding temp_dir no_slash join is_plain
temp_dir-plain id h = join-plain ("tmp" ∷ []) (concat "exec-" id) (
    ground (
      arith,
      h,
      count_ne (concat "exec-" id) "" (omega arith),
      count_ne (concat "exec-" id) "." (omega arith),
      count_ne (concat "exec-" id) ".." (omega arith),
    ))

finish_walk-Inside :
    (dir : FilePath) (language : String) (r : Walked) (w : World)
    → WalkedInside dir r
    → BuiltInside dir (finish_walk dir language r (none, w)).0
unfolding finish_walk
finish_walk-Inside dir language (done d) w h = h
finish_walk-Inside dir language (os_error d) w h = tt
finish_walk-Inside dir language out_of_fuel w h = tt

write_tree-Inside :
    (files : List File) (contents : Contents) (file_id : ℕ) (dir : FilePath) (language : String)
    (w : World)
    → All HasPlainName files
    → BuiltInside dir (write_tree files contents file_id dir language w).0
unfolding write_tree build_tree
write_tree-Inside files contents file_id dir language w a =
    let start : Disk = record { world = w; made = []; entry_path = [] } in
    let d = (make dir none start).1 in
    if_lem {A = Option Built × World} (λ r. BuiltInside dir r.0) (not (make dir none start).0) tt
      (finish_walk-Inside dir language _ d.world (
        walk_tree-Inside dir (suc (length files)) files contents file_id (build_tree files) dir d a
          (All-keep HasPlainName _ files a) self (make-IsInside dir dir none start self tt)))

build_files-Inside :
    (env : Env) (execution_id : String) (file_id : ℕ) (rows : List File) (w : World)
    → All HasPlainName rows
    → BuiltInside (temp_dir execution_id) (build_files env execution_id file_id rows w).0
unfolding build_files
build_files-Inside env execution_id file_id rows w a =
    let files = keep (λ f. f.is_active) rows in
    if_lem {A = Option Built × World} (λ r. BuiltInside (temp_dir execution_id) r.0)
      (load_contents env files w).0.0
      (write_tree-Inside files _ file_id (temp_dir execution_id) _ _
        (All-keep HasPlainName _ rows a))
      tt

-- What the query returns has plain names.
abbrev FoundPlain : Outcome (List File) → Type 0
FoundPlain (row rows) = All HasPlainName rows
FoundPlain _ = Unit

query-FoundPlain :
    (env : Env) (room_id : ℕ) (w : World)
    → All HasPlainName w.db.files
    → FoundPlain (query (get_files_for_room env.name_le room_id) w).0
unfolding query get_files_for_room
query-FoundPlain env room_id w a =
    if_lem {A = Outcome (List File) × World} (λ r. FoundPlain r.0) (fault w) tt
      (All-order_files env.name_le _ (All-keep HasPlainName _ w.db.files a))

after_query :
    (env : Env) (execution_id : String) (file_id : ℕ) (o : Outcome (List File)) (w : World)
    → FoundPlain o
    → BuiltInside (temp_dir execution_id) (after_files env execution_id file_id o w).0
unfolding after_files
after_query env execution_id file_id (row rows) w a =
    build_files-Inside env execution_id file_id rows w a
after_query env execution_id file_id no_rows w a = tt
after_query env execution_id file_id failed w a = tt
after_query env execution_id file_id hang w a = tt

reconstruct_file_tree-Inside :
    (env : Env) (room_id : ℕ) (execution_id : String) (file_id : ℕ) (w : World)
    → All HasPlainName w.db.files
    → BuiltInside
        (temp_dir execution_id)
        (reconstruct_file_tree env room_id execution_id file_id w).0
unfolding reconstruct_file_tree
reconstruct_file_tree-Inside env room_id execution_id file_id w a =
    after_query env execution_id file_id _ (query (get_files_for_room env.name_le room_id) w).1
      (query-FoundPlain env room_id w a)

-- If the names of all files are single elements of a path and the id of the execution has no
-- slash, then everything that a reconstruction without an error has made is the directory
-- exec-<id> of /tmp or lies below it.
pub reconstruct_file_tree-IsUnder :
    (env : Env) (room_id : ℕ) (execution_id : String) (file_id : ℕ) (w : World) (b : Built)
    → All (λ f. is_plain f.name ≡ true) w.db.files
    → no_slash execution_id ≡ true
    → (reconstruct_file_tree env room_id execution_id file_id w).0 ≡ some b
    → All (λ m. IsUnder (concat "exec-" execution_id ∷ "tmp" ∷ []) m.0) b.made
reconstruct_file_tree-IsUnder env room_id execution_id file_id w b a s e =
    subst (λ dir. IsInside dir b.made) (temp_dir-plain execution_id s)
      (subst (BuiltInside (temp_dir execution_id)) e
        (reconstruct_file_tree-Inside env room_id execution_id file_id w a))
