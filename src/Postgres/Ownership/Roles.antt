-- ===== src/Postgres/Ownership/Roles.antt =====
-- The role of a user in a room, as GetMemberRole finds it.
use pairly.Prelude.{nat_eq, ℕ, ◌≡◌, refl, Option, none, some, List, [], ◌∷◌, arith, find, All}
use pairly.Postgres.Schema.{Role, owner, Member, Db, is_membership}
use pairly.Postgres.Statement.{scan}
use pairly.Postgres.Rooms.{get_member_role}
use pairly.Postgres.Ownership.{IsRightful, owner_of}

unfoldable pub role_in : Db → ℕ → ℕ → Option Role
role_in db room user = elim (find (is_membership room user) db.members) [
  | none ↦ none
  | some m ↦ some m.role
]

pub get_member_role-role_in :
    (db : Db) (room user : ℕ) → get_member_role room user db ≡ (scan (role_in db room user), db)
unfolding get_member_role role_in
get_member_role-role_in db room user = refl

rightful_found :
    (db : Db) (room user : ℕ) (ms : List Member) (m : Member)
    → All (IsRightful db.rooms) ms
    → find (is_membership room user) ms ≡ some m
    → m.role ≡ owner
    → owner_of db.rooms room ≡ some user
unfolding find
rightful_found db room user [] m h e o = absurd (cc)
rightful_found db room user (n ∷ ms) m h e o =
    ground (arith, h.0, rightful_found db room user ms m h.1)

pub role_in-IsRightful :
    (db : Db) (room user : ℕ)
    → All (IsRightful db.rooms) db.members
    → role_in db room user ≡ some owner
    → owner_of db.rooms room ≡ some user
unfolding role_in
role_in-IsRightful db room user h e = go (find (is_membership room user) db.members) refl e
  where
    go :
        (o : Option Member)
        → find (is_membership room user) db.members ≡ o
        → (elim o as (λ x. Option Role) [ none ↦ none | some m ↦ some m.role ]) ≡ some owner
        → owner_of db.rooms room ≡ some user
    go none q p = absurd (cc)
    go (some m) q p = rightful_found db room user db.members m h q (cc)
