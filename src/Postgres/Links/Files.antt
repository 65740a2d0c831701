-- ===== src/Postgres/Links/Files.antt =====
-- The statements on files keep the links.
use pairly.Prelude.{
  nat_eq, string_eq, ℕ, ◌+◌, ◌≡◌, refl, ap, ◌∙◌, Bool, true, false, not, ◌&&◌, Option, none, some,
  List, [], ◌∷◌, ◌++◌, arith, ◌==◌, any, find, update, All, All-append, All-map, All-update,
  any-append, any-update, Bool-cases, Option-cases, inl, inr,
}
use pairly.Postgres.Schema.{File, Db, is_file}
use pairly.Postgres.Files.{
  CreateFileParams, UpdateFileParams, UpdateFolderParams, new_file, fits, create_file,
  insert_default_file, update_returning, update_file, update_folder, toggle_file, toggle_folder,
  move_folder, permanent_delete_file, is_one_of, set_active, target_state,
}
use pairly.Postgres.Files.Subtree.{subtree}
use pairly.Postgres.Links.{IsLinked, Grows, fits-Grows, cut-fits}

-- The check of an UPDATE covers every row that it changes.
All-update_checked :
    (ok : File → Bool) (test : File → Bool) (change : File → File) (fs : List File)
    → any (λ g. test g && not (ok (change g))) fs ≡ false
    → All (λ f. ok f ≡ true) fs
    → All (λ f. ok f ≡ true) (update test change fs)
unfolding any update
All-update_checked ok test change [] e h = tt
All-update_checked ok test change (f ∷ fs) e h =
    (ground (arith, h.0), All-update_checked ok test change fs (ground arith) h.1)

module _ (db : Db) (v : IsLinked db) where
  with_file :
      (f : File)
      → fits db f ≡ true
      → IsLinked (record db { files = db.files ++ f ∷ []; next_id = db.next_id + 1 })
  with_file f h =
      let grown : Grows db (record db { files = db.files ++ f ∷ []; next_id = db.next_id + 1 }) =
        record {
          rooms = λ x r. r;
          users = λ x u. u;
          files = λ x. any-append (is_file x) db.files _;
        } in
      record {
        members = v.members;
        files =
            All-append _ db.files _ (All-map (λ g. fits-Grows db _ grown g) db.files v.files)
              (fits-Grows db _ grown f h, tt);
      }

  pub create_file-IsLinked : (p : CreateFileParams) → IsLinked (create_file p db).1
  unfolding create_file
  create_file-IsLinked p = elim (Bool-cases (fits db (new_file p db))) [
    | inl e ↦ rw (e, create_file) (with_file (new_file p db) e)
    | inr e ↦ rw (e, create_file) v
  ]

  pub insert_default_file-IsLinked : (r u : ℕ) → IsLinked (insert_default_file r u db).1
  unfolding insert_default_file
  insert_default_file-IsLinked r u = create_file-IsLinked (record {
    room_id = r;
    name = "main.py";
    language = "python";
    parent_id = none;
    is_folder = false;
    created_by = u;
  })

  with_update :
      (test : File → Bool) (change : File → File)
      → ((f : File) → (change f).id ≡ f.id)
      → All (λ f. fits db f ≡ true) (update test change db.files)
      → IsLinked (record db { files = update test change db.files })
  with_update test change same h =
      let grown : Grows db (record db { files = update test change db.files }) = record {
        rooms = λ x r. r;
        users = λ x u. u;
        files = λ x f.
            any-update (is_file x) test change db.files (λ y. ap (λ (i : ℕ). i == x) (same y)) ∙ f;
      } in
      record { members = v.members; files = All-map (λ g. fits-Grows db _ grown g) _ h }

  update_returning-IsLinked :
      (test : File → Bool) (change : File → File)
      → ((f : File) → (change f).id ≡ f.id)
      → IsLinked (update_returning test change db).1
  unfolding update_returning
  update_returning-IsLinked test change same = elim (Option-cases (find test db.files)) [
    | inl e ↦ rw (e, update_returning) v
    | inr (f, e) ↦ elim (Bool-cases (any (λ g. test g && not (fits db (change g))) db.files)) [
      | inl bad ↦ rw (e, bad, update_returning) v
      | inr good ↦
          rw (e, good, update_returning)
            (with_update test change same
              (All-update_checked (fits db) test change db.files good v.files))
    ]
  ]

  pub update_file-IsLinked : (p : UpdateFileParams) → IsLinked (update_file p db).1
  unfolding update_file
  update_file-IsLinked p = update_returning-IsLinked _ _ (λ f. refl)

  pub update_folder-IsLinked : (p : UpdateFolderParams) → IsLinked (update_folder p db).1
  unfolding update_folder
  update_folder-IsLinked p = update_returning-IsLinked _ _ (λ f. refl)

  pub toggle_file-IsLinked : (f : ℕ) → IsLinked (toggle_file f db).1
  unfolding toggle_file
  toggle_file-IsLinked f =
      update_returning-IsLinked _
        (λ g. record g { is_active = not g.is_active; parent_id = none; updated_at = some db.now })
        (λ g. refl)

  pub move_folder-IsLinked : (f : ℕ) (q : Option ℕ) → IsLinked (move_folder f q db).1
  unfolding move_folder
  move_folder-IsLinked f q = update_returning-IsLinked _ _ (λ f. refl)

  flipped :
      (state : Bool) (f : File) → fits db f ≡ true → fits db (set_active state db.now f) ≡ true
  unfolding fits
  flipped state f h = h

  pub toggle_folder-IsLinked : (f : ℕ) → IsLinked (toggle_folder f db).1
  unfolding toggle_folder
  toggle_folder-IsLinked f = elim (Option-cases (subtree db.files f)) [
    | inl e ↦ rw (e, toggle_folder) v
    | inr (ids, e) ↦
        rw (e, toggle_folder)
          (with_update _ _ (λ g. refl)
            (All-update _ _ _ db.files (λ g _ h. flipped (target_state f db) g h) v.files))
  ]

  pub permanent_delete_file-IsLinked : (f : ℕ) → IsLinked (permanent_delete_file f db).1
  unfolding permanent_delete_file
  permanent_delete_file-IsLinked f = elim (Option-cases (subtree db.files f)) [
    | inl e ↦ rw (e, permanent_delete_file) v
    | inr (ids, e) ↦
        rw (e, permanent_delete_file)
          (record {
            members = v.members;
            files = cut-fits db (is_one_of ids) db.rooms db.members (λ g _ h. h) v.files;
          })
  ]
