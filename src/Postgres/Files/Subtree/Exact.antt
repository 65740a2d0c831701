-- ===== src/Postgres/Files/Subtree/Exact.antt =====
-- The result of the recursive query, against the relation of lying below its root.
use pairly.Prelude.{
  nat_eq, ℕ, zero, suc, ◌≡◌, ◌↔◌, ap, sym, subst, inl, inr, true, some, List, [], ◌∷◌, arith,
  ==_refl, any, length, Bool-cases,
}
use pairly.Postgres.Schema.{File, is_file}
use pairly.Postgres.Files.Subtree.{children_of, children, descend, subtree}
use pairly.Postgres.Files.Subtree.Descendants.{
  has, is_edge, IsBelow, itself, under, has-append, has-children_of, descend-suc, descend_nil,
  descend_complete,
}

-- A row of the next round is a child of a row of this one.
pub children_sound :
    (files : List File) (ps : List ℕ) (c : ℕ)
    → has (children files ps) c ≡ true
    → (p : ℕ) × (has ps p ≡ true) × (is_edge files p c ≡ true)
unfolding children has
children_sound files [] c h = absurd (cc)
children_sound files (q ∷ ps) c h = elim (Bool-cases (is_edge files q c)) [
  | inl e ↦ (q, ground (arith, ==_refl q), e)
  | inr e ↦
      let rest = children_sound files ps c (
        ground (
          arith,
          has-append (children_of files q) (children files ps) c,
          has-children_of files q c,
        )) in
      (rest.0, ground (arith, rest.1), rest.2)
]

-- A path down may begin with an edge, too.
pub IsBelow-edge :
    {files : List File} {q p x : ℕ}
    → is_edge files q p ≡ true
    → IsBelow files p x
    → IsBelow files q x
IsBelow-edge e itself = under itself e
IsBelow-edge e (under b g) = under (IsBelow-edge e b) g

-- What is found lies below a row of the working table.
pub descend_sound :
    (fuel : ℕ) (files : List File) (ws ids : List ℕ) (x : ℕ)
    → descend fuel files ws ≡ some ids
    → has ids x ≡ true
    → (p : ℕ) × (has ws p ≡ true) × IsBelow files p x
descend_sound zero files [] ids x e h = absurd (unfold has in cc (descend_nil zero files ids e))
descend_sound (suc fuel) files [] ids x e h =
    absurd (unfold has in cc (descend_nil (suc fuel) files ids e))
descend_sound zero files (w ∷ ws) ids x e h = absurd (unfold descend in cc)
descend_sound (suc fuel) files (w ∷ ws) ids x e h =
    let (below, q, r) = descend-suc fuel files w ws ids e in
    elim (Bool-cases (has (w ∷ ws) x)) [
      | inl first ↦ (x, first, itself)
      | inr later ↦
          let (p, in_round, b) =
            descend_sound fuel files (children files (w ∷ ws)) below x q
              (ground (arith, has-append (w ∷ ws) below x, ap (λ (l : List ℕ). has l x) r)) in
          let (o, in_ws, g) = children_sound files (w ∷ ws) p in_round in
          (o, in_ws, IsBelow-edge g b)
    ]

has_one : (root p : ℕ) → has (root ∷ []) p ≡ true → root ≡ p
unfolding has
has_one root p h = ground arith

-- Where the recursive query ends, an id is in its result exactly when it is the root, or lies
-- below the root by parent_id.
pub subtree-IsBelow :
    (files : List File) (root : ℕ) (ids : List ℕ) (x : ℕ)
    → any (is_file root) files ≡ true
    → subtree files root ≡ some ids
    → (has ids x ≡ true) ↔ IsBelow files root x
unfolding subtree
subtree-IsBelow files root ids x known e =
    let rounds : descend (length files) files (root ∷ []) ≡ some ids = ground arith in
    (
      (λ h.
          let (p, one, b) = descend_sound (length files) files (root ∷ []) ids x rounds h in
          subst (λ (r : ℕ). IsBelow files r x) (sym (has_one root p one)) b),
      λ b.
          descend_complete (length files) files (root ∷ []) ids root x rounds
            (unfold has in ground (arith, ==_refl root)) b,
    )
