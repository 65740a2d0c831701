-- ===== src/Postgres/Files/Subtree/Descendants.antt =====
-- What the recursive query finds, against the relation that it is meant to compute.
use pairly.Prelude.{
  nat_eq, ℕ, zero, suc, ◌≡◌, refl, ap, inl, inr, Bool, true, false, some, List, [], ◌∷◌, ◌++◌,
  arith, ◌==◌, ==_iff, if◌then◌else◌, Bool-cases, Option-cases,
}
use pairly.Postgres.Schema.{File}
use pairly.Postgres.Files.Subtree.{is_child_of, children_of, children, descend}

-- Membership of a number in a list, as a test.
unfoldable pub has : List ℕ → ℕ → Bool
has [] x = false
has (y ∷ ys) x = let rest = has ys x in if y == x then true else rest

-- There is a row of `files` with the id and with the parent.
unfoldable pub is_edge : List File → ℕ → ℕ → Bool
is_edge [] p c = false
is_edge (f ∷ fs) p c =
    let rest = is_edge fs p c in
    if f.id == c then (if is_child_of p f then true else rest) else rest

-- `x` is `root`, or lies below it by parent_id.
pub data IsBelow (files : List File) (root : ℕ) : ℕ → Type 0 where
  itself : IsBelow files root root
  under : {p c : ℕ} → IsBelow files root p → is_edge files p c ≡ true → IsBelow files root c

pub has-append : (xs ys : List ℕ) (x : ℕ) → has (xs ++ ys) x ≡ (if has xs x then true else has ys x)
unfolding has
has-append [] ys x = refl
has-append (z ∷ xs) ys x = ground (arith, has-append xs ys x)

pub has-children_of :
    (files : List File) (p c : ℕ) → has (children_of files p) c ≡ is_edge files p c
unfolding has children_of is_edge
has-children_of [] p c = refl
has-children_of (f ∷ fs) p c = ground (arith, has-children_of fs p c)

-- A child of a row of the working table is found in the next round.
pub has-children :
    (files : List File) (ps : List ℕ) (p c : ℕ)
    → has ps p ≡ true
    → is_edge files p c ≡ true
    → has (children files ps) c ≡ true
unfolding has children
has-children files [] p c h e = absurd (cc)
has-children files (q ∷ ps) p c h e = elim (Bool-cases (q == p)) [
  | inl hit ↦ ground (
    arith,
    has-append (children_of files q) (children files ps) c,
    has-children_of files q c,
    ==_iff q p,
  )
  | inr miss ↦
      ground
        (arith, has-append (children_of files q) (children files ps) c, has-children files ps p c)
]

-- One round more: the working table, and what the rounds after it find.
pub descend-suc :
    (fuel : ℕ) (files : List File) (w : ℕ) (ws ids : List ℕ)
    → descend (suc fuel) files (w ∷ ws) ≡ some ids
    → (below : List ℕ) × (descend fuel files (children files (w ∷ ws)) ≡ some below)
      × (ids ≡ (w ∷ ws) ++ below)
unfolding descend
descend-suc fuel files w ws ids e =
    elim (Option-cases (descend fuel files (children files (w ∷ ws)))) [
      | inl q ↦ absurd (ground arith)
      | inr (below, q) ↦ (below, q, ground arith)
    ]

pub descend_nil :
    (fuel : ℕ) (files : List File) (ids : List ℕ) → descend fuel files [] ≡ some ids → ids ≡ []
unfolding descend
descend_nil zero files ids e = cc
descend_nil (suc fuel) files ids e = cc

-- The working table is part of the result.
descend-start :
    (fuel : ℕ) (files : List File) (ws ids : List ℕ) (x : ℕ)
    → descend fuel files ws ≡ some ids
    → has ws x ≡ true
    → has ids x ≡ true
unfolding has
descend-start fuel files [] ids x e h = absurd (cc)
descend-start zero files (w ∷ ws) ids x e h = absurd (no_fuel e)
  where
    no_fuel : descend zero files (w ∷ ws) ≡ some ids → ⊥
    no_fuel q = unfold descend in absurd (cc)
descend-start (suc fuel) files (w ∷ ws) ids x e h =
    let (below, q, r) = descend-suc fuel files w ws ids e in
    rw r (ground (arith, has-append ws below x))

-- The result is closed: with a row it has the row's children.
descend_closed :
    (fuel : ℕ) (files : List File) (ws ids : List ℕ) (p c : ℕ)
    → descend fuel files ws ≡ some ids
    → has ids p ≡ true
    → is_edge files p c ≡ true
    → has ids c ≡ true
descend_closed zero files [] ids p c e h g =
    absurd (unfold has in cc (descend_nil zero files ids e))
descend_closed (suc fuel) files [] ids p c e h g =
    absurd (unfold has in cc (descend_nil (suc fuel) files ids e))
descend_closed zero files (w ∷ ws) ids p c e h g = absurd (unfold descend in cc)
descend_closed (suc fuel) files (w ∷ ws) ids p c e h g =
    let (below, q, r) = descend-suc fuel files w ws ids e in
    rw r (elim (Bool-cases (has (w ∷ ws) p)) [
      | inl first ↦ ground (
        arith,
        has-append (w ∷ ws) below c,
        descend-start fuel files (children files (w ∷ ws)) below c q
            (has-children files (w ∷ ws) p c first g),
      )
      | inr later ↦ ground (
        arith,
        has-append (w ∷ ws) below c,
        descend_closed fuel files (children files (w ∷ ws)) below p c q
            (ground (arith, has-append (w ∷ ws) below p, ap (λ (l : List ℕ). has l p) r)) g,
      )
    ])

-- What lies below a row of the working table is found.
pub descend_complete :
    (fuel : ℕ) (files : List File) (ws ids : List ℕ) (p x : ℕ)
    → descend fuel files ws ≡ some ids
    → has ws p ≡ true
    → IsBelow files p x
    → has ids x ≡ true
descend_complete fuel files ws ids p x e h itself = descend-start fuel files ws ids p e h
descend_complete fuel files ws ids p x e h (under {p = q} b g) =
    descend_closed fuel files ws ids q x e (descend_complete fuel files ws ids p q e h b) g
