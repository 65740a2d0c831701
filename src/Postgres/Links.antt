-- ===== src/Postgres/Links.antt =====
-- The foreign keys and checks of backend/migrations, as a predicate on the tables.
pub mod Members
pub mod Files
use pairly.Prelude.{
  nat_eq, string_eq, ℕ, ◌≡◌, refl, sym, ap, ◌∙◌, String, Bool, true, false, not, ◌&&◌, Option, none,
  some, List, [], ◌∷◌, ◌++◌, map, arith, ◌==◌, ==_iff, any, find, keep, update, All, All-append,
  All-map, All-keep, All-update, All-keep-map, All-map-map, any-append, any-update, any-map,
  any-keep, leb, if◌then◌else◌, Bool-cases, Option-cases, inl, inr,
}
use pairly.Outcome.{row}
use pairly.Postgres.Schema.{
  Role, User, Room, Member, File, Db, is_user, is_room, is_file, is_membership,
}
use pairly.Postgres.Statement.{Statement}
use pairly.Postgres.Rooms.{
  insert_room, insert_member, add_member, remove_member, leave_room, update_member_role,
  rename_room, clear_parent, delete_room,
}
use pairly.Postgres.Files.{fits, has_parent}

-- A member's room and user exist.
abbrev pub is_linked : Db → Member → Bool
is_linked db m = any (is_room m.room_id) db.rooms && any (is_user m.user_id) db.users

-- Each member's room and user, and each file's room, creator and parent exist, its name and language
-- are no longer than their columns, and a folder has no language.
pub record IsLinked (db : Db) : Type 0 where
  pub members : All (λ m. is_linked db m ≡ true) db.members
  pub files : All (λ f. fits db f ≡ true) db.files

-- A row whose parent is set anew still fits, if what it refers to exists.
pub fits-carry :
    (db db' : Db) (f : File) (q : Option ℕ)
    → (any (is_room f.room_id) db.rooms ≡ true → any (is_room f.room_id) db'.rooms ≡ true)
    → (any (is_user f.created_by) db.users ≡ true → any (is_user f.created_by) db'.users ≡ true)
    → (has_parent db f.parent_id ≡ true → has_parent db' q ≡ true)
    → fits db f ≡ true
    → fits db' (record f { parent_id = q }) ≡ true
unfolding fits
fits-carry db db' f q r u p h = ground arith

-- The tables after a statement hold what they held.
pub record Grows (db db' : Db) : Type 0 where
  pub rooms : (x : ℕ) → any (is_room x) db.rooms ≡ true → any (is_room x) db'.rooms ≡ true
  pub users : (x : ℕ) → any (is_user x) db.users ≡ true → any (is_user x) db'.users ≡ true
  pub files : (x : ℕ) → any (is_file x) db.files ≡ true → any (is_file x) db'.files ≡ true

has_parent-Grows :
    (db db' : Db) (g : Grows db db') (q : Option ℕ)
    → has_parent db q ≡ true
    → has_parent db' q ≡ true
has_parent-Grows db db' g none h = refl
has_parent-Grows db db' g (some p) h = g.files p h

pub fits-Grows : (db db' : Db) → Grows db db' → (f : File) → fits db f ≡ true → fits db' f ≡ true
fits-Grows db db' g f h =
    fits-carry db db' f f.parent_id (g.rooms f.room_id) (g.users f.created_by)
      (has_parent-Grows db db' g f.parent_id) h

pub is_linked-Grows :
    (db db' : Db) → Grows db db' → (m : Member) → is_linked db m ≡ true → is_linked db' m ≡ true
is_linked-Grows db db' g m h = ground (arith, g.rooms m.room_id, g.users m.user_id)

-- A deletion of rows of `files`, which clears the parent of the rows that lay under them.
module _ (db : Db) (drop : File → Bool) where
  abbrev pub is_gone : ℕ → Bool
  is_gone id = any (λ g. g.id == id && drop g) db.files

  abbrev pub cut : List Room → List Member → Db
  cut rooms members = record db {
    rooms = rooms;
    members = members;
    files = map (clear_parent is_gone) (keep (λ f. not (drop f)) db.files);
  }

  has_parent-cut :
      (rooms : List Room) (members : List Member) (q : Option ℕ)
      → has_parent db q ≡ true
      → has_parent
          (cut rooms members)
          (elim q [ none ↦ none | some p ↦ if is_gone p then none else some p ])
        ≡ true
  has_parent-cut rooms members none h = refl
  has_parent-cut rooms members (some p) h = elim (Bool-cases (is_gone p)) [
    | inl e ↦ rw e refl
    | inr e ↦ rw e (
        any-map (is_file p) (clear_parent is_gone) (keep (λ f. not (drop f)) db.files) (λ y. refl)
        ∙ any-keep (is_file p) drop db.files h e)
  ]

  -- What is left still fits, if the rooms of the rows that stay do.
  pub cut-fits :
      (rooms : List Room) (members : List Member)
      → ((f : File)
          → drop f ≡ false
          → any (is_room f.room_id) db.rooms ≡ true
          → any (is_room f.room_id) rooms ≡ true)
      → All (λ f. fits db f ≡ true) db.files
      → All (λ f. fits (cut rooms members) f ≡ true) (cut rooms members).files
  cut-fits rooms members left h =
      All-map-map (λ f. (drop f ≡ false) × (fits db f ≡ true)) _ (clear_parent is_gone) _
        (λ f both.
          fits-carry db (cut rooms members) f _ (left f both.0) (λ u. u)
            (has_parent-cut rooms members f.parent_id) both.1)
        (All-keep-map _ _ (λ f. not (drop f)) db.files (λ f kept fit. ((ground arith), fit)) h)
