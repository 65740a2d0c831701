-- ===== src/Executor/Tree/Walks.antt =====
-- What a walk of backend/internal/executor/builder.go keeps of the disk.
use pairly.Prelude.{
  ℕ, zero, suc, String, Bool, true, false, Option, none, some, List, [], ◌∷◌, if◌then◌else◌,
  string_eq, nat_eq, All, All-keep,
}
use pairly.Postgres.Schema.{File}
use pairly.Executor.Paths.{FilePath, join}
use pairly.Executor.Tree.{
  Disk, make, Walked, done, os_error, out_of_fuel, for_nodes, Contents, content_of, node_children,
  note_entry, visit_node, walk_tree,
}

pub if_lem : {A : Type 0} (P : A → Type 0) (b : Bool) {x y : A} → P x → P y → P (if b then x else y)
if_lem P true hx hy = hx
if_lem P false hx hy = hy

abbrev pub WalkedAll : (Disk → Type 0) → Walked → Type 0
WalkedAll I (done d) = I d
WalkedAll I (os_error d) = I d
WalkedAll I out_of_fuel = Unit

-- `I` is kept by what the walk makes at paths of `U`, and names of `Q` lead from such a path to one.
module _ (I : Disk → Type 0) (U : FilePath → Type 0) (Q : File → Type 0)
    (made : (path : FilePath) (text : Option String) (d : Disk)
      → U path
      → I d
      → I (make path text d).1)
    (noted : (file_id : ℕ) (n : File) (path : FilePath) (d : Disk)
      → I d
      → I (note_entry file_id n path d))
    (joins : (path : FilePath) (n : File) → U path → Q n → U (join path n.name)) where
  after_node :
      (r : Walked) (rest : Disk → Walked)
      → WalkedAll I r
      → ((d : Disk) → I d → WalkedAll I (rest d))
      → WalkedAll I
          (elim r [ done d ↦ rest d | os_error d ↦ os_error d | out_of_fuel ↦ out_of_fuel ])
  after_node (done d) rest h k = k d h
  after_node (os_error d) rest h k = h
  after_node out_of_fuel rest h k = tt

  for_nodes-WalkedAll :
      (visit : File → Disk → Walked)
      → ((n : File) (d : Disk) → Q n → I d → WalkedAll I (visit n d))
      → (nodes : List File) (d : Disk) → All Q nodes
      → I d
      → WalkedAll I (for_nodes visit nodes d)
  unfolding for_nodes
  for_nodes-WalkedAll visit v [] d q i = i
  for_nodes-WalkedAll visit v (n ∷ ns) d q i =
      after_node (visit n d) (for_nodes visit ns) (v n d q.0 i)
        (λ d' h. for_nodes-WalkedAll visit v ns d' q.1 h)

  visit_node-WalkedAll :
      (walk : File → FilePath → Disk → Walked)
      → ((n : File) (path : FilePath) (d : Disk) → U path → I d → WalkedAll I (walk n path d))
      → (contents : Contents) (file_id : ℕ) (path : FilePath) (n : File) (d : Disk) → U path
      → Q n
      → I d
      → WalkedAll I (visit_node walk contents file_id path n d)
  unfolding visit_node
  visit_node-WalkedAll walk w contents file_id path n d u q i =
      let full = join path n.name in
      let start = note_entry file_id n full d in
      let under = joins path n u q in
      let text = some (content_of n.id contents) in
      let folder = made full none start under (noted file_id n full d i) in
      let file = made full text start under (noted file_id n full d i) in
      if_lem (WalkedAll I) n.is_folder
        (if_lem (WalkedAll I) (make full none start).0
          (w n full (make full none start).1 under folder) folder)
        (if_lem (WalkedAll I) (make full text start).0 file file)

  pub walk_tree-WalkedAll :
      (fuel : ℕ) (files : List File) (contents : Contents) (file_id : ℕ) (nodes : List File)
      (path : FilePath) (d : Disk)
      → All Q files
      → All Q nodes
      → U path
      → I d
      → WalkedAll I (walk_tree fuel files contents file_id nodes path d)
  unfolding walk_tree node_children
  walk_tree-WalkedAll zero files contents file_id nodes path d a p u i = tt
  walk_tree-WalkedAll (suc fuel) files contents file_id nodes path d a p u i =
      for_nodes-WalkedAll _
        (λ n d q j.
          visit_node-WalkedAll _
            (λ m path d v k.
              walk_tree-WalkedAll fuel files contents file_id (node_children files m) path d a
                (All-keep Q _ files a) v k)
            contents file_id path n d u q j)
        nodes d p i
