-- ===== src/Postgres/Files/Effects.antt =====
-- ToggleFolder and PermanentDeleteFile of backend/internal/postgres/files.go, row by row, where
-- parent_id makes no cycle.
use pairly.Prelude.{
  nat_eq, ℕ, ◌≡◌, refl, ap, sym, ◌∙◌, ◌↔◌, inl, inr, Bool, true, false, not, ◌&&◌, none, some, List,
  [], ◌∷◌, arith, ◌==◌, ==_iff, ==_refl, any, find, keep, find-update_hit, find-update_miss,
  find-map, find-map-none, find-keep_ne, find-keep-none, find-IsHit, Bool-cases, Option-cases,
}
use pairly.Postgres.Schema.{File, Db, is_file}
use pairly.Postgres.Rooms.{clear_parent}
use pairly.Postgres.Files.{toggle_folder, permanent_delete_file, is_one_of}
use pairly.Postgres.Files.Subtree.{subtree}
use pairly.Postgres.Files.Subtree.Descendants.{has, is_edge, IsBelow, under}
use pairly.Postgres.Files.Subtree.Exact.{subtree-IsBelow}
use pairly.Postgres.Files.Subtree.Terminates.{IsForest, subtree-ne-none}

is_one_of-has : (ids : List ℕ) (f : File) → is_one_of ids f ≡ has ids f.id
unfolding any has
is_one_of-has [] f = refl
is_one_of-has (id ∷ ids) f = ground (arith, is_one_of-has ids f)

any-found :
    (files : List File) (x : ℕ) (f : File)
    → find (is_file x) files ≡ some f
    → any (is_file x) files ≡ true
unfolding find any
any-found [] x f h = absurd (cc)
any-found (g ∷ files) x f h = ground (arith, any-found files x f)

found_id : (files : List File) (x : ℕ) (f : File) → find (is_file x) files ≡ some f → f.id ≡ x
found_id files x f h = (==_iff f.id x).0 (find-IsHit (is_file x) files f h)

-- The rows that the query finds, where it ends.
module _ (files : List File) (v : IsForest files) (root : ℕ) (r : File)
    (known : find (is_file root) files ≡ some r) where
  ends : (ids : List ℕ) × (subtree files root ≡ some ids)
  ends = elim (Option-cases (subtree files root)) [
    | inl e ↦ absurd (subtree-ne-none files root v e)
    | inr s ↦ s
  ]

  has-IsBelow :
      (ids : List ℕ) (x : ℕ)
      → subtree files root ≡ some ids
      → (has ids x ≡ true) ↔ IsBelow files root x
  has-IsBelow ids x e = subtree-IsBelow files root ids x (any-found files root r known) e

  hit :
      (ids : List ℕ) (x : ℕ) (f : File)
      → subtree files root ≡ some ids
      → f.id ≡ x
      → IsBelow files root x
      → is_one_of ids f ≡ true
  hit ids x f e i b = is_one_of-has ids f ∙ ap (has ids) i ∙ (has-IsBelow ids x e).1 b

  miss :
      (ids : List ℕ) (x : ℕ) (f : File)
      → subtree files root ≡ some ids
      → f.id ≡ x
      → ¬ IsBelow files root x
      → is_one_of ids f ≡ false
  miss ids x f e i b = elim (Bool-cases (is_one_of ids f)) [
    | inl q ↦
        absurd (b ((has-IsBelow ids x e).0 (ap (has ids) (sym i) ∙ sym (is_one_of-has ids f) ∙ q)))
    | inr q ↦ q
  ]

module _ (db : Db) (v : IsForest db.files) (root : ℕ) (r : File)
    (known : find (is_file root) db.files ≡ some r) (x : ℕ) (f : File)
    (found : find (is_file x) db.files ≡ some f) where
  -- Where parent_id makes no cycle and the folder is there, ToggleFolder sets its row, and each row
  -- below it, to the negation of the state that the folder had, stamps it, and leaves its other
  -- columns; the query ends.
  pub toggle_folder_below :
      IsBelow db.files root x
      → find (is_file x) (toggle_folder root db).1.files
        ≡ some (record f { is_active = not r.is_active; updated_at = some db.now })
  unfolding toggle_folder
  toggle_folder_below b =
      let (ids, e) = ends db.files v root r known in
      rw (e, toggle_folder)
        (find-update_hit (is_one_of ids) (is_file x) _ db.files f (λ y h. h) (λ y h. h) found
            (hit db.files v root r known ids x f e (found_id db.files x f found) b)
          ∙ ground arith)

  -- Where parent_id makes no cycle and the folder is there, ToggleFolder leaves a row that is
  -- neither the folder nor below it as it was.
  pub toggle_folder_other :
      ¬ IsBelow db.files root x → find (is_file x) (toggle_folder root db).1.files ≡ some f
  unfolding toggle_folder
  toggle_folder_other b =
      let (ids, e) = ends db.files v root r known in
      rw (e, toggle_folder)
        (find-update_miss (is_one_of ids) (is_file x) _ db.files f (λ y h. h) (λ y h. h) found
          (miss db.files v root r known ids x f e (found_id db.files x f found) b))

gone-has :
    (ids : List ℕ) (p : ℕ) (files : List File)
    → any (λ g. g.id == p && is_one_of ids g) files ≡ true
    → has ids p ≡ true
unfolding any
gone-has ids p [] h = absurd (cc)
gone-has ids p (g ∷ files) h = elim (Bool-cases (g.id == p && is_one_of ids g)) [
  | inl e ↦ ground (arith, ==_iff g.id p, is_one_of-has ids g)
  | inr e ↦ ground (arith, gone-has ids p files)
]

found-edge :
    (files : List File) (x p : ℕ) (f : File)
    → find (is_file x) files ≡ some f
    → f.parent_id ≡ some p
    → is_edge files p x ≡ true
unfolding find is_edge
found-edge [] x p f h e = absurd (cc)
found-edge (g ∷ files) x p f h e = ground (arith, found-edge files x p f, ==_refl p)

kept_parent :
    (gone : ℕ → Bool) (f : File)
    → ((p : ℕ) → f.parent_id ≡ some p → gone p ≡ false)
    → clear_parent gone f ≡ f
kept_parent gone f h = elim (Option-cases f.parent_id) [
  | inl e ↦ ground arith
  | inr (p, e) ↦ ground (arith, h p e)
]

module _ (db : Db) (v : IsForest db.files) (root : ℕ) (r : File)
    (known : find (is_file root) db.files ≡ some r) (x : ℕ) (f : File)
    (found : find (is_file x) db.files ≡ some f) where
  -- Where parent_id makes no cycle and the file or folder is there, PermanentDeleteFile deletes its
  -- row and each row below it; the query ends.
  pub permanent_delete_file_below :
      IsBelow db.files root x → find (is_file x) (permanent_delete_file root db).1.files ≡ none
  unfolding permanent_delete_file
  permanent_delete_file_below b =
      let (ids, e) = ends db.files v root r known in
      rw (e, permanent_delete_file)
        (find-map-none (is_file x) _ (keep (λ g. not (is_one_of ids g)) db.files) (λ y. refl)
          (find-keep-none (λ g. not (is_one_of ids g)) (is_file x) db.files
            (λ y h. ap not (hit db.files v root r known ids x y e ((==_iff y.id x).0 h) b))))

  -- Where parent_id makes no cycle and the file or folder is there, PermanentDeleteFile leaves a row
  -- that is neither it nor below it as it was, with its parent.
  pub permanent_delete_file_other :
      ¬ IsBelow db.files root x → find (is_file x) (permanent_delete_file root db).1.files ≡ some f
  unfolding permanent_delete_file
  permanent_delete_file_other b =
      let (ids, e) = ends db.files v root r known in
      let stays : (p : ℕ)
          → f.parent_id ≡ some p
          → any (λ g. g.id == p && is_one_of ids g) db.files ≡ false =
        λ p q. elim (Bool-cases (any (λ g. g.id == p && is_one_of ids g) db.files)) [
          | inl gone ↦ absurd (
              b (
                under
                  ((has-IsBelow db.files v root r known ids p e).0 (gone-has ids p db.files gone))
                  (found-edge db.files x p f found q)))
          | inr kept ↦ kept
        ] in
      rw (e, permanent_delete_file)
        (find-map (is_file x) _ (keep (λ g. not (is_one_of ids g)) db.files) f (λ y. refl)
            (find-keep_ne (λ g. not (is_one_of ids g)) (is_file x) db.files
                (λ y h. ap not (miss db.files v root r known ids x y e ((==_iff y.id x).0 h) b))
              ∙ found)
          ∙ ap some (kept_parent (λ p. any (λ g. g.id == p && is_one_of ids g) db.files) f stays))
