-- ===== src/Executor/Tree/Ends.antt =====
-- The walk of backend/internal/executor/builder.go ends.
pub mod Chains
use pairly.Prelude.{
  ℕ, zero, suc, ◌+◌, ◌-◌, ◌*◌, ◌≤◌, ◌<◌, String, ◌≡◌, refl, sym, ap, subst, ◌∙◌, ◌≢◌, ◌↔◌, ◌⊎◌, inl,
  inr, Bool, true, false, not, ◌&&◌, ◌||◌, Option, none, some, List, [], ◌∷◌, ◌++◌, map, arith, ltb,
  leb, if◌then◌else◌, Comparable, string_eq, nat_eq, Bool-cases, ◌==◌, ==_iff, ==_refl,
  Option-cases, length, keep, any, find, update, All, length-append, All-keep, All-append, All-map,
  find-append_new, find-append, any-append, any-update, any-keep, All-keep-map,
}
use pairly.Postgres.Schema.{File, is_file}
use pairly.Executor.Paths.{FilePath, join}
use pairly.Executor.Tree.{
  Disk, make, Walked, done, os_error, out_of_fuel, for_nodes, Contents, content_of, has_parent_id,
  node_children, build_tree, note_entry, visit_node, walk_tree,
}
use pairly.Executor.Tree.Walks.{if_lem}
use pairly.Executor.Tree.Ends.Chains.{IsKeyed, IsFound, is_root, Linked, IsChain, chain-le}

is_ended : Walked → Bool
is_ended (done d) = true
is_ended (os_error d) = true
is_ended out_of_fuel = false

after_node :
    (r : Walked) (rest : Disk → Walked)
    → is_ended r ≡ true
    → ((d : Disk) → is_ended (rest d) ≡ true)
    → is_ended (elim r [ done d ↦ rest d | os_error d ↦ os_error d | out_of_fuel ↦ out_of_fuel ])
      ≡ true
unfolding is_ended
after_node (done d) rest h k = k d
after_node (os_error d) rest h k = refl
after_node out_of_fuel rest h k = h

for_nodes-is_ended :
    (Q : File → Type 0) (visit : File → Disk → Walked)
    → ((n : File) (d : Disk) → Q n → is_ended (visit n d) ≡ true)
    → (nodes : List File) (d : Disk) → All Q nodes
    → is_ended (for_nodes visit nodes d) ≡ true
unfolding for_nodes is_ended
for_nodes-is_ended Q visit v [] d q = refl
for_nodes-is_ended Q visit v (n ∷ ns) d q =
    after_node (visit n d) (for_nodes visit ns) (v n d q.0)
      (λ d. for_nodes-is_ended Q visit v ns d q.1)

visit_node-is_ended :
    (walk : File → FilePath → Disk → Walked) (n : File)
    → ((path : FilePath) (d : Disk) → is_ended (walk n path d) ≡ true)
    → (contents : Contents) (file_id : ℕ) (path : FilePath) (d : Disk)
    → is_ended (visit_node walk contents file_id path n d) ≡ true
unfolding visit_node is_ended
visit_node-is_ended walk n w contents file_id path d =
    let full = join path n.name in
    let start = note_entry file_id n full d in
    if_lem (λ r. is_ended r ≡ true) n.is_folder
      (if_lem (λ r. is_ended r ≡ true) (make full none start).0 (w full (make full none start).1)
        refl)
      (if_lem (λ r. is_ended r ≡ true) (make full (some (content_of n.id contents)) start).0 refl
        refl)

-- The children of a node are linked to it.
children-Linked :
    (files : List File) (n : File) (c : List File)
    → IsKeyed files
    → All (λ m. IsFound files m × Linked files m (n ∷ c)) (node_children files n)
unfolding node_children
children-Linked files n c k =
    All-keep-map (IsFound files) _ (has_parent_id n.id) files (λ m e f. (f, e)) k

build_tree-Linked :
    (files : List File)
    → IsKeyed files
    → All (λ m. IsFound files m × Linked files m []) (build_tree files)
unfolding build_tree
build_tree-Linked files k = All-keep-map (IsFound files) _ (is_root files) files (λ m e f. (f, e)) k

-- Below a chain of nodes there is fuel left for as many as the chain is shorter than the files.
walk_tree-is_ended :
    (fuel : ℕ) (files : List File) (contents : Contents) (file_id : ℕ) (c nodes : List File)
    (path : FilePath) (d : Disk)
    → IsKeyed files
    → IsChain files c
    → fuel + length c ≡ suc (length files)
    → All (λ n. IsFound files n × Linked files n c) nodes
    → is_ended (walk_tree fuel files contents file_id nodes path d) ≡ true
unfolding walk_tree
walk_tree-is_ended zero files contents file_id c nodes path d k chain f links =
    absurd (omega (arith, chain-le files c chain))
walk_tree-is_ended (suc fuel) files contents file_id c nodes path d k chain f links =
    for_nodes-is_ended (λ n. IsFound files n × Linked files n c) _
      (λ n d l.
        visit_node-is_ended _ n
          (λ path d.
            walk_tree-is_ended fuel files contents file_id (n ∷ c) (node_children files n) path d k
              (l.0, l.1, chain) (omega (arith, f)) (children-Linked files n c k))
          contents file_id path d)
      nodes d links

not_ended : is_ended out_of_fuel ≢ true
unfolding is_ended
not_ended e = cc

-- Where each id belongs to one file, the walk from the roots never runs out of the fuel that the
-- number of files gives, whatever the parents are: a node that is its own ancestor included.
pub walk_tree-build_tree :
    (files : List File) (contents : Contents) (file_id : ℕ) (dir : FilePath) (d : Disk)
    → IsKeyed files
    → walk_tree (suc (length files)) files contents file_id (build_tree files) dir d ≢ out_of_fuel
walk_tree-build_tree files contents file_id dir d k e = absurd (
    not_ended (
      sym (ap is_ended e)
      ∙ walk_tree-is_ended (suc (length files)) files contents file_id [] (build_tree files) dir d k
          tt (omega arith) (build_tree-Linked files k)))
