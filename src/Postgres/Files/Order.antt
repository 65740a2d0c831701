-- ===== src/Postgres/Files/Order.antt =====
-- GetFilesForRoom of backend/internal/postgres/files.go: ORDER BY is_folder DESC, name ASC.
use mathlib.Core.List.{Perm}
use mathlib.Core.List.Perm
use pairly.Prelude.{
  nat_eq, ℕ, ◌≡◌, refl, sym, ◌∙◌, String, Bool, true, false, List, [], ◌∷◌, arith, ◌⊎◌, ◌==◌, keep,
  Bool-cases, inl, inr,
}
use pairly.Outcome.{row}
use pairly.Postgres.Schema.{File, Db}
use pairly.Postgres.Files.{comes_first, insert_ordered, order_files, get_files_for_room}

module _ (name_le : String → String → Bool) where
  abbrev HeadFollows : File → List File → Type 0
  HeadFollows f [] = Unit
  HeadFollows f (g ∷ gs) = comes_first name_le f g ≡ true

  abbrev IsOrdered : List File → Type 0
  IsOrdered [] = Unit
  IsOrdered (f ∷ fs) = HeadFollows f fs × IsOrdered fs

  -- A folder before a file, or two of a kind with the name of the first no later.
  abbrev pub Precedes : File → File → Type 0
  Precedes f g =
      ((f.is_folder ≡ true) × (g.is_folder ≡ false))
      ⊎ ((f.is_folder ≡ g.is_folder) × (name_le f.name g.name ≡ true))

  abbrev pub HeadPrecedes : File → List File → Type 0
  HeadPrecedes f [] = Unit
  HeadPrecedes f (g ∷ gs) = Precedes f g

  -- Each row precedes the next.
  abbrev pub IsSorted : List File → Type 0
  IsSorted [] = Unit
  IsSorted (f ∷ fs) = HeadPrecedes f fs × IsSorted fs

  comes_first-Precedes : (f g : File) → comes_first name_le f g ≡ true → Precedes f g
  unfolding comes_first
  comes_first-Precedes f g h = elim (Bool-cases f.is_folder) [
    | inl e ↦ elim (Bool-cases g.is_folder) [
      | inl q ↦ inr (e ∙ sym q, ground arith)
      | inr q ↦ inl (e, q)
    ]
    | inr e ↦ elim (Bool-cases g.is_folder) [
      | inl q ↦ absurd (ground arith)
      | inr q ↦ inr (e ∙ sym q, ground arith)
    ]
  ]

  IsOrdered-IsSorted : (fs : List File) → IsOrdered fs → IsSorted fs
  IsOrdered-IsSorted [] h = tt
  IsOrdered-IsSorted (f ∷ []) h = (tt, tt)
  IsOrdered-IsSorted (f ∷ g ∷ gs) h =
      (comes_first-Precedes f g h.0, IsOrdered-IsSorted (g ∷ gs) h.1)

  insert_ordered-Perm : (f : File) (fs : List File) → Perm (insert_ordered name_le f fs) (f ∷ fs)
  unfolding insert_ordered
  insert_ordered-Perm f [] = Perm.refl (f ∷ [])
  insert_ordered-Perm f (g ∷ gs) = elim (Bool-cases (comes_first name_le f g)) [
    | inl e ↦ rw e (Perm.refl (f ∷ g ∷ gs))
    | inr e ↦ rw e (Perm.trans (Perm.cons g (insert_ordered-Perm f gs)) (Perm.swap f g gs))
  ]

  order_files-Perm : (fs : List File) → Perm (order_files name_le fs) fs
  unfolding order_files
  order_files-Perm [] = Perm.refl []
  order_files-Perm (f ∷ fs) =
      Perm.trans (insert_ordered-Perm f (order_files name_le fs))
        (Perm.cons f (order_files-Perm fs))

  module _ (total : (a b : String) → (name_le a b ≡ true) ⊎ (name_le b a ≡ true)) where
    comes_first-total :
        (f g : File) → comes_first name_le f g ≡ false → comes_first name_le g f ≡ true
    unfolding comes_first
    comes_first-total f g h = elim (total f.name g.name) [
      | inl q ↦ ground arith
      | inr q ↦ ground arith
    ]

    HeadFollows-insert_ordered :
        (g f : File) (fs : List File)
        → comes_first name_le g f ≡ true
        → HeadFollows g fs
        → HeadFollows g (insert_ordered name_le f fs)
    unfolding insert_ordered
    HeadFollows-insert_ordered g f [] h k = h
    HeadFollows-insert_ordered g f (x ∷ fs) h k = elim (Bool-cases (comes_first name_le f x)) [
      | inl e ↦ rw e h
      | inr e ↦ rw e k
    ]

    insert_ordered-IsOrdered :
        (f : File) (fs : List File) → IsOrdered fs → IsOrdered (insert_ordered name_le f fs)
    unfolding insert_ordered
    insert_ordered-IsOrdered f [] h = (tt, tt)
    insert_ordered-IsOrdered f (g ∷ gs) h = elim (Bool-cases (comes_first name_le f g)) [
      | inl e ↦ rw e (e, h)
      | inr e ↦ rw e (
        HeadFollows-insert_ordered g f gs (comes_first-total f g e) h.0,
        insert_ordered-IsOrdered f gs h.1,
      )
    ]

    order_files-IsOrdered : (fs : List File) → IsOrdered (order_files name_le fs)
    unfolding order_files
    order_files-IsOrdered [] = tt
    order_files-IsOrdered (f ∷ fs) = insert_ordered-IsOrdered f _ (order_files-IsOrdered fs)

    -- Where the collation orders any two names, GetFilesForRoom returns the room's rows, each once,
    -- with the folders before the files, and among each kind every name no later than the next.
    pub get_files_for_room-IsSorted :
        (room : ℕ) (db : Db)
        → (fs : List File) × ((get_files_for_room name_le room db).0 ≡ row fs)
          × Perm fs (keep (λ f. f.room_id == room) db.files)
          × IsSorted fs
    unfolding get_files_for_room
    get_files_for_room-IsSorted room db =
        let found = keep (λ f. f.room_id == room) db.files in
        (
          order_files name_le found,
          refl,
          order_files-Perm found,
          IsOrdered-IsSorted _ (order_files-IsOrdered found),
        )
