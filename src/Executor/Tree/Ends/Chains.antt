-- ===== src/Executor/Tree/Ends/Chains.antt =====
-- Chains of nodes, each the child of the next, up to a root.
use pairly.Prelude.{
  ℕ, ◌≤◌, ◌<◌, ◌≡◌, refl, sym, ap, ◌∙◌, ◌⊎◌, inl, inr, Bool, true, false, not, ◌&&◌, none, some,
  List, [], ◌∷◌, arith, string_eq, nat_eq, Bool-cases, ◌==◌, ==_iff, Option-cases, length, keep,
  any, find, All, any-keep,
}
use pairly.Postgres.Schema.{File, is_file}
use pairly.Executor.Tree.{has_parent_id}

-- The rows have different ids: a file is the one that its id finds.
abbrev pub IsFound : List File → File → Type 0
IsFound files f = find (is_file f.id) files ≡ some f

abbrev pub IsKeyed : List File → Type 0
IsKeyed files = All (IsFound files) files

-- The test of buildTree for a root.
abbrev pub is_root : List File → File → Bool
is_root files f = elim f.parent_id [ none ↦ true | some p ↦ not (any (is_file p) files) ]

-- The node is a child of the first of the chain, or a root above no chain.
abbrev pub Linked : List File → File → List File → Type 0
Linked files n [] = is_root files n ≡ true
Linked files n (g ∷ c) = has_parent_id g.id n ≡ true

abbrev pub IsChain : List File → List File → Type 0
IsChain files [] = Unit
IsChain files (n ∷ c) = IsFound files n × Linked files n c × IsChain files c

find-any : (p : File → Bool) (fs : List File) (f : File) → find p fs ≡ some f → any p fs ≡ true
unfolding find any
find-any p [] f e = absurd (cc)
find-any p (g ∷ fs) f e = ground (arith, find-any p fs f)

some-injective : {f g : File} → some f ≡ some g → f ≡ g
some-injective e = cc

-- One file has each id.
same_file :
    (files : List File) (f g : File)
    → IsFound files f
    → IsFound files g
    → (f.id == g.id) ≡ true
    → f ≡ g
same_file files f g a b e =
    some-injective (sym a ∙ ap (λ x. find (is_file x) files) ((==_iff f.id g.id).0 e) ∙ b)

root-missing :
    (files : List File) (g : File) (q : ℕ)
    → is_root files g ≡ true
    → g.parent_id ≡ some q
    → any (is_file q) files ≡ false
root-missing files g q r e = ground arith

parent-is : (q k : ℕ) (g : File) → g.parent_id ≡ some q → has_parent_id k g ≡ true → (k == q) ≡ true
parent-is q k g e h = ground (arith, ==_iff q k, ==_iff k q)

parent-of : (p : ℕ) (n : File) → has_parent_id p n ≡ true → n.parent_id ≡ some p
parent-of p n h = elim (Option-cases n.parent_id) [
  | inl e ↦ absurd (ground arith)
  | inr (q, e) ↦ e ∙ ap some ((==_iff q p).0 (ground arith))
]

-- No node has the id of one before it.
abbrev IsApart : List File → Type 0
IsApart [] = Unit
IsApart (n ∷ c) = (any (is_file n.id) c ≡ false) × IsApart c

length-keep-le : (p : File → Bool) (fs : List File) → length (keep p fs) ≤ length fs
unfolding keep
length-keep-le p [] = omega arith
length-keep-le p (f ∷ fs) = ground (arith, length-keep-le p fs)

length-keep-lt :
    (x : ℕ) (fs : List File)
    → any (is_file x) fs ≡ true
    → length (keep (λ f. not (is_file x f)) fs) < length fs
unfolding keep any
length-keep-lt x [] h = absurd (cc)
length-keep-lt x (f ∷ fs) h =
    ground (arith, length-keep-lt x fs, length-keep-le (λ f. not (is_file x f)) fs)

both_ids :
    (x y : ℕ) (fs : List File) → (x == y) ≡ false → any (λ f. is_file y f && is_file x f) fs ≡ false
unfolding any
both_ids x y [] h = refl
both_ids x y (f ∷ fs) h =
    ground (arith, both_ids x y fs h, ==_iff f.id x, ==_iff f.id y, ==_iff x y)

-- Files that are not the one taken away are found among the rest.
keep-all :
    (x : ℕ) (c files : List File)
    → any (is_file x) c ≡ false
    → All (λ f. any (is_file f.id) files ≡ true) c
    → All (λ f. any (is_file f.id) (keep (λ f. not (is_file x f)) files) ≡ true) c
unfolding any
keep-all x [] files n h = tt
keep-all x (f ∷ c) files n h = (
  any-keep (is_file f.id) (is_file x) files h.0
      (both_ids x f.id files (ground (arith, ==_iff f.id x, ==_iff x f.id))),
  keep-all x c files (ground arith) h.1,
)

-- The parent of a node of a chain is later in the chain, or no node.
climb :
    (files : List File) (n g : File) (c : List File) (q : ℕ)
    → IsFound files n
    → n.parent_id ≡ some q
    → IsChain files (g ∷ c)
    → any (is_file n.id) (g ∷ c) ≡ true
    → (any (is_file q) c ≡ true) ⊎ (any (is_file q) files ≡ false)
unfolding any
climb files n g [] q a e chain h =
    let same = same_file files g n chain.0 a (ground arith) in
    inr (root-missing files g q chain.1 (ap (λ f. f.parent_id) same ∙ e))
climb files n g (k ∷ c) q a e chain h = elim (Bool-cases (g.id == n.id)) [
  | inl t ↦
      let same = same_file files g n chain.0 a t in
      inl (ground (arith, parent-is q k.id g (ap (λ f. f.parent_id) same ∙ e) chain.1))
  | inr t ↦ elim (climb files n k c q a e chain.2 (ground arith)) [
    | inl later ↦ inl (ground arith)
    | inr missing ↦ inr missing
  ]
]

-- A node below a chain is not in it.
fresh :
    (files : List File) (n : File) (c : List File)
    → IsFound files n
    → Linked files n c
    → IsChain files c
    → any (is_file n.id) c ≡ false
unfolding any
fresh files n [] a l chain = refl
fresh files n (g ∷ c) a l chain = elim (Bool-cases (any (is_file n.id) (g ∷ c))) [
  | inl h ↦ elim (climb files n g c g.id a (parent-of g.id n l) chain h) [
    | inl later ↦ absurd (ground (arith, fresh files g c chain.0 chain.1 chain.2))
    | inr missing ↦ absurd (ground (arith, find-any (is_file g.id) files g chain.0))
  ]
  | inr h ↦ h
]

-- Nodes that are files and different are no more than the files.
chain-le-any :
    (c files : List File)
    → IsApart c
    → All (λ f. any (is_file f.id) files ≡ true) c
    → length c ≤ length files
chain-le-any [] files d h = omega arith
chain-le-any (n ∷ c) files d h =
    let left = keep (λ f. not (is_file n.id f)) files in
    omega (
      arith,
      length-keep-lt n.id files h.0,
      chain-le-any c left d.1 (keep-all n.id c files d.0 h.1),
    )

chain-IsApart : (files c : List File) → IsChain files c → IsApart c
chain-IsApart files [] chain = tt
chain-IsApart files (n ∷ c) chain =
    (fresh files n c chain.0 chain.1 chain.2, chain-IsApart files c chain.2)

chain-found : (files c : List File) → IsChain files c → All (λ f. any (is_file f.id) files ≡ true) c
chain-found files [] chain = tt
chain-found files (n ∷ c) chain =
    (find-any (is_file n.id) files n chain.0, chain-found files c chain.2)

pub chain-le : (files c : List File) → IsChain files c → length c ≤ length files
chain-le files c chain =
    chain-le-any c files (chain-IsApart files c chain) (chain-found files c chain)
