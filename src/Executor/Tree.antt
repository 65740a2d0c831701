-- ===== src/Executor/Tree.antt =====
-- backend/internal/executor/builder.go and decoder.go: the active files of a room, written to a
-- directory. Spans and log lines are left out.
pub mod Walks
pub mod Ends
pub mod Contained
pub mod Untouched
use pairly.Prelude.{
  ℕ, zero, suc, ◌+◌, ◌-◌, ◌*◌, ◌≤◌, ◌<◌, String, ◌≡◌, refl, sym, ap, subst, ◌∙◌, ◌≢◌, ◌↔◌, ◌⊎◌, inl,
  inr, Bool, true, false, not, ◌&&◌, ◌||◌, Option, none, some, List, [], ◌∷◌, ◌++◌, map, arith, ltb,
  leb, if◌then◌else◌, Comparable, string_eq, nat_eq, Bool-cases, ◌==◌, ==_iff, ==_refl,
  Option-cases, length, keep, any, find, update, All, length-append, All-keep, All-append,
}
use pairly.Outcome.{Outcome, row, no_rows, failed, hang}
use pairly.Postgres.Schema.{File, is_file}
use pairly.Postgres.Files.{get_files_for_room}
use pairly.Mongo.Documents.{Bytes, YjsDocument}
use pairly.World.Env.{Env}
use pairly.World.State.{World, query, mongo, fault, called}
use pairly.Rooms.StateHandler.{document_of, is_empty}
use pairly.Executor.Paths.{concat, FilePath, join, push_all, split_slash, trim_prefix, path_text}

-- DecodeYjsToText; y-crdt makes the text where the document has none, so it is never nil.
unfoldable pub decode_yjs_to_text : Env → Bytes → String
decode_yjs_to_text env state =
    if is_empty state then "" else env.get_text (env.apply_update env.new_doc state)

-- What the walk made on the disk, a text or, for a folder, none; the entry path that it found.
pub record Disk : Type 0 where
  pub world : World
  pub made : List (FilePath × Option String)
  pub entry_path : FilePath

-- os.MkdirAll and os.WriteFile: `true` without an error.
unfoldable pub make : FilePath → Option String → Disk → Bool × Disk
make path text d =
    if fault d.world
    then (false, record d { world = called d.world })
    else (true, record d { world = called d.world; made = d.made ++ (path, text) ∷ [] })

pub data Walked : Type 0 where
  done : Disk → Walked
  os_error : Disk → Walked
  out_of_fuel : Walked

-- The loop over the nodes; an error ends it.
unfoldable pub for_nodes : (File → Disk → Walked) → List File → Disk → Walked
for_nodes visit [] d = done d
for_nodes visit (n ∷ ns) d = elim (visit n d) [
  | done d' ↦ for_nodes visit ns d'
  | os_error d' ↦ os_error d'
  | out_of_fuel ↦ out_of_fuel
]

-- contentMap: the text of each file.
abbrev pub Contents : Type 0
Contents = List (ℕ × String)

unfoldable pub content_of : ℕ → Contents → String
content_of id [] = ""
content_of id ((k, text) ∷ rest) = let later = content_of id rest in if k == id then text else later

abbrev pub has_parent_id : ℕ → File → Bool
has_parent_id id f = elim f.parent_id [ none ↦ false | some p ↦ p == id ]

-- node.Children, which buildTree collects: the nodes that name this one as their parent.
unfoldable pub node_children : List File → File → List File
node_children files f = keep (has_parent_id f.id) files

-- The roots of buildTree: nodes without a parent, and nodes whose parent is not in the map.
unfoldable pub build_tree : List File → List File
build_tree files =
    keep (λ f. elim f.parent_id [ none ↦ true | some p ↦ not (any (is_file p) files) ]) files

abbrev pub note_entry : ℕ → File → FilePath → Disk → Disk
note_entry file_id n path d = if n.id == file_id then record d { entry_path = path } else d

-- A folder is made, then its children are walked by `walk`; a file is written.
unfoldable pub visit_node :
    (File → FilePath → Disk → Walked) → Contents → ℕ → FilePath → File → Disk → Walked
visit_node walk contents file_id path n d =
    let full_path = join path n.name in
    let noted = note_entry file_id n full_path d in
    if n.is_folder
    then (let (fine, d') = make full_path none noted in
        if fine then walk n full_path d' else os_error d')
    else (let (fine, d') = make full_path (some (content_of n.id contents)) noted in
        if fine then done d' else os_error d')

-- walkTree; the fuel is the number of folders on a path.
unfoldable pub walk_tree : ℕ → List File → Contents → ℕ → List File → FilePath → Disk → Walked
walk_tree zero files contents file_id nodes path d = out_of_fuel
walk_tree (suc fuel) files contents file_id nodes path d =
    for_nodes
      (visit_node (λ n. walk_tree fuel files contents file_id (node_children files n)) contents
        file_id path)
      nodes d

unfoldable pub entry_language : ℕ → List File → String
entry_language file_id [] = ""
entry_language file_id (f ∷ fs) =
    let later = entry_language file_id fs in
    if f.id == file_id && not (any (is_file file_id) fs) then f.language else later

abbrev pub text_of : Env → Option YjsDocument → String
text_of env none = ""
text_of env (some doc) = decode_yjs_to_text env doc.yjs_state

-- One goroutine's result among those of the others; `false` is fetchErr.
unfoldable pub add_content :
    Env → ℕ → Outcome (Option YjsDocument) → Bool × Contents → Bool × Contents
add_content env id (row doc) (fine, contents) = (fine, (id, text_of env doc) ∷ contents)
add_content env id no_rows (fine, contents) = (false, contents)
add_content env id failed (fine, contents) = (false, contents)
add_content env id hang (fine, contents) = (false, contents)

-- The goroutines that load and decode the documents, one after another.
unfoldable pub load_contents : Env → List File → World → (Bool × Contents) × World
load_contents env [] w = ((true, []), w)
load_contents env (f ∷ fs) w =
    if f.is_folder
    then load_contents env fs w
    else (let (o, w') = mongo (document_of f.id) w in
        let (others, w'') = load_contents env fs w' in (add_content env f.id o others, w''))

-- "/tmp/exec-" + executionID, as the system reads it
unfoldable pub temp_dir : String → FilePath
temp_dir execution_id = push_all (split_slash (concat "exec-" execution_id)) ("tmp" ∷ [])

-- What ReconstructFileTree returns, but for the directory.
pub record Built : Type 0 where
  pub entry_path : String
  pub language : String
  pub made : List (FilePath × Option String)

-- strings.TrimPrefix(entryPath, tempDir+"/"); the entry path is empty if no node had the id.
unfoldable pub entry_of_walk : FilePath → FilePath → String
entry_of_walk dir path = trim_prefix (path_text path) (concat (path_text dir) "/") (path_text path)

unfoldable pub finish_walk :
    FilePath → String → Walked → Option Built × World → Option Built × World
finish_walk dir language (done d) other = (
  some (record { entry_path = entry_of_walk dir d.entry_path; language = language; made = d.made }),
  d.world,
)
finish_walk dir language (os_error d) other = (none, d.world)
finish_walk dir language out_of_fuel other = other

unfoldable pub write_tree :
    List File → Contents → ℕ → FilePath → String → World → Option Built × World
write_tree files contents file_id dir language w =
    let (fine, d) = make dir none (record { world = w; made = []; entry_path = [] }) in
    if not fine
    then (none, d.world)
    else finish_walk dir language
        (walk_tree (suc (length files)) files contents file_id (build_tree files) dir d)
        (none, d.world)

-- ReconstructFileTree after its query.
unfoldable pub build_files : Env → String → ℕ → List File → World → Option Built × World
build_files env execution_id file_id all_files w =
    let files = keep (λ f. f.is_active) all_files in
    let ((fine, contents), w') = load_contents env files w in
    if fine
    then write_tree files contents file_id (temp_dir execution_id)
        (entry_language file_id all_files) w'
    else (none, w')

-- The test of the query's error.
unfoldable pub after_files : Env → String → ℕ → Outcome (List File) → World → Option Built × World
after_files env execution_id file_id (row all_files) w =
    build_files env execution_id file_id all_files w
after_files env execution_id file_id no_rows w = (none, w)
after_files env execution_id file_id failed w = (none, w)
after_files env execution_id file_id hang w = (none, w)

-- ReconstructFileTree; `none` is an error.
unfoldable pub reconstruct_file_tree : Env → ℕ → String → ℕ → World → Option Built × World
reconstruct_file_tree env room_id execution_id file_id w =
    let (o, w') = query (get_files_for_room env.name_le room_id) w in
    after_files env execution_id file_id o w'
