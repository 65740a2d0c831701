-- ===== src/Postgres/Files/Subtree/Cycle.antt =====
-- The recursive query at a row that lies below itself: UNION ALL keeps the rows found before, and
-- UpdateFolder of backend/internal/postgres/files.go takes any row as the new parent.
use pairly.Prelude.{
  nat_eq, ℕ, zero, suc, ◌≡◌, refl, sym, subst, ◌⊎◌, inl, inr, true, none, List, [], ◌∷◌, arith,
  ==_refl,
}
use pairly.Postgres.Schema.{File}
use pairly.Postgres.Files.Subtree.{children, descend}
use pairly.Postgres.Files.Subtree.Descendants.{has, is_edge, IsBelow, itself, under, has-children}

-- A step down from `y` leads to `x` again.
abbrev Leads : List File → ℕ → ℕ → Type 0
Leads files x y = (q : ℕ) × (is_edge files y q ≡ true) × IsBelow files q x

-- A path down is empty, or begins with a step.
IsBelow-cases : {files : List File} {a b : ℕ} → IsBelow files a b → (a ≡ b) ⊎ Leads files b a
IsBelow-cases itself = inl refl
IsBelow-cases {files} {a} (under {p} {c} b g) = elim (IsBelow-cases b) [
  | inl e ↦ inr (c, subst (λ (z : ℕ). is_edge files z c ≡ true) (sym e) g, itself)
  | inr (q, s, r) ↦ inr (q, s, under r g)
]

Leads-next :
    (files : List File) (x y : ℕ)
    → Leads files x x
    → Leads files x y
    → (q : ℕ) × (is_edge files y q ≡ true) × Leads files x q
Leads-next files x y cycle (q, g, b) = elim (IsBelow-cases b) [
  | inl e ↦ (q, g, subst (λ (z : ℕ). Leads files x z) (sym e) cycle)
  | inr on ↦ (q, g, on)
]

descend_endless :
    (fuel : ℕ) (files : List File) (x y : ℕ) (ws : List ℕ)
    → Leads files x x
    → Leads files x y
    → has ws y ≡ true
    → descend fuel files ws ≡ none
unfolding descend
descend_endless fuel files x y [] cycle on h = absurd (unfold has in cc)
descend_endless zero files x y (w ∷ ws) cycle on h = refl
descend_endless (suc fuel) files x y (w ∷ ws) cycle on h =
    let (q, g, on') = Leads-next files x y cycle on in
    let rest =
      descend_endless fuel files x q (children files (w ∷ ws)) cycle on'
        (has-children files (w ∷ ws) y q h g) in
    ground (arith, rest)

-- If some row `p` that lies below a row of the table, or is that row, is its parent, then the
-- recursive query from that row does not end: no number of rounds leaves an empty working table.
pub descend_cycle :
    (fuel : ℕ) (files : List File) (root p : ℕ)
    → is_edge files p root ≡ true
    → IsBelow files root p
    → descend fuel files (root ∷ []) ≡ none
descend_cycle fuel files root p g b =
    descend_endless fuel files root root (root ∷ []) cycle cycle
      (unfold has in ground (arith, ==_refl root))
  where
    cycle : Leads files root root
    cycle = elim (IsBelow-cases b) [
      | inl e ↦ (root, subst (λ (z : ℕ). is_edge files z root ≡ true) (sym e) g, itself)
      | inr (q, s, r) ↦ (q, s, under r g)
    ]
