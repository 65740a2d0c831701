-- ===== src/Postgres/Files/Subtree/Terminates.antt =====
-- The rounds of the recursive query where parent_id makes no cycle.
use pairly.Prelude.{
  nat_eq, ℕ, zero, suc, ◌+◌, ◌≤◌, ◌<◌, ◌≡◌, ◌≢◌, refl, true, Option, none, some, List, [], ◌∷◌,
  ◌++◌, arith, ◌==◌, ==_iff, any, length, ltb, if◌then◌else◌, Bool-cases, inl, inr,
}
use pairly.Postgres.Schema.{File, is_file}
use pairly.Postgres.Files.Subtree.{children, descend, subtree}
use pairly.Postgres.Files.Subtree.Descendants.{has, is_edge}
use pairly.Postgres.Files.Subtree.Exact.{children_sound}

-- A rank that falls towards the root: there is one just where no row lies below itself.
pub record IsForest (files : List File) : Type 0 where
  pub rank : ℕ → ℕ
  pub falls : (p c : ℕ) → is_edge files p c ≡ true → rank p < rank c

-- The rows whose rank is below a bound.
count_below : (ℕ → ℕ) → ℕ → List File → ℕ
count_below rank n [] = 0
count_below rank n (f ∷ fs) =
    let rest = count_below rank n fs in if ltb (rank f.id) n then suc rest else rest

count_below-le : (rank : ℕ → ℕ) (n : ℕ) (fs : List File) → count_below rank n fs ≤ length fs
unfolding count_below
count_below-le rank n [] = omega arith
count_below-le rank n (f ∷ fs) = ground (arith, count_below-le rank n fs)

count_below_mono :
    (rank : ℕ → ℕ) (m n : ℕ) (fs : List File)
    → m ≤ n
    → count_below rank m fs ≤ count_below rank n fs
unfolding count_below
count_below_mono rank m n [] h = omega arith
count_below_mono rank m n (f ∷ fs) h = ground (arith, count_below_mono rank m n fs h)

-- A row is not below its own rank.
count_below-lt-length :
    (rank : ℕ → ℕ) (x : ℕ) (fs : List File)
    → any (is_file x) fs ≡ true
    → count_below rank (rank x) fs < length fs
unfolding count_below any
count_below-lt-length rank x [] h = absurd (cc)
count_below-lt-length rank x (f ∷ fs) h = elim (Bool-cases (f.id == x)) [
  | inl e ↦ grind (arith, count_below-le rank (rank x) fs, (==_iff f.id x).0 e)
  | inr e ↦ ground (arith, count_below-lt-length rank x fs, count_below-le rank (rank x) fs)
]

-- A row of smaller rank counts.
count_below_step :
    (rank : ℕ → ℕ) (p n : ℕ) (fs : List File)
    → any (is_file p) fs ≡ true
    → rank p < n
    → count_below rank (rank p) fs < count_below rank n fs
unfolding count_below any
count_below_step rank p n [] h lt = absurd (cc)
count_below_step rank p n (f ∷ fs) h lt = elim (Bool-cases (f.id == p)) [
  | inl e ↦ grind (arith, count_below_mono rank (rank p) n fs, (==_iff f.id p).0 e)
  | inr e ↦ ground (arith, count_below_step rank p n fs, count_below_mono rank (rank p) n fs)
]

edge-any : (files : List File) (p c : ℕ) → is_edge files p c ≡ true → any (is_file c) files ≡ true
unfolding is_edge any
edge-any [] p c h = absurd (cc)
edge-any (f ∷ fs) p c h = ground (arith, edge-any fs p c)

-- Rounds that do not end in `suc fuel` have not ended in `fuel` after the first.
descend_later :
    (fuel : ℕ) (files : List File) (w : ℕ) (ws : List ℕ)
    → descend (suc fuel) files (w ∷ ws) ≡ none
    → descend fuel files (children files (w ∷ ws)) ≡ none
unfolding descend
descend_later fuel files w ws e = go (descend fuel files (children files (w ∷ ws))) e
  where
    go :
        (o : Option (List ℕ))
        → elim o [ none ↦ none | some below ↦ some ((w ∷ ws) ++ below) ] ≡ none
        → o ≡ none
    go none e = refl
    go (some b) e = absurd (cc)

-- In round `k` every row has `k` rows of smaller rank; so the rounds are no more than the rows.
rounds_end :
    (files : List File) (v : IsForest files) (fuel k : ℕ) (ws : List ℕ)
    → length files ≤ fuel + k
    → ((x : ℕ)
        → has ws x ≡ true
        → (any (is_file x) files ≡ true) × (k ≤ count_below v.rank (v.rank x) files))
    → descend fuel files ws ≢ none
unfolding descend
rounds_end files v zero k [] h rows e = cc
rounds_end files v (suc fuel) k [] h rows e = cc
rounds_end files v zero k (w ∷ ws) h rows e =
    let (known, deep) = rows w (unfold has in ground (arith, ==_iff w w)) in
    omega (arith, count_below-lt-length v.rank w files known)
rounds_end files v (suc fuel) k (w ∷ ws) h rows e =
    rounds_end files v fuel (k + 1) (children files (w ∷ ws)) (omega arith)
      (λ x found.
        let (p, in_ws, g) = children_sound files (w ∷ ws) x found in
        let (known, deep) = rows p in_ws in
        (
          edge-any files p x g,
          omega (arith, count_below_step v.rank p (v.rank x) files known (v.falls p x g)),
        ))
      (descend_later fuel files w ws e)

-- In a forest the recursive query ends, whatever its root.
pub subtree-ne-none : (files : List File) (root : ℕ) → IsForest files → subtree files root ≢ none
unfolding subtree
subtree-ne-none files root v e = elim (Bool-cases (any (is_file root) files)) [
  | inl known ↦
      rounds_end files v (length files) 0 (root ∷ []) (omega arith)
        (λ x h. (unfold has in ground (arith, ==_iff root x), omega arith)) (ground arith)
  | inr unknown ↦ ground arith
]
