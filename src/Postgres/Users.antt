-- ===== src/Postgres/Users.antt =====
-- backend/internal/postgres/users.go
use pairly.Prelude.{
  nat_eq, string_eq, ℕ, ◌+◌, String, Bool, true, false, ◌&&◌, ◌||◌, Option, none, some, [], ◌∷◌,
  ◌++◌, ◌==◌, leb, if◌then◌else◌, find, any, update,
}
use pairly.Text.{rune_count}
use pairly.Outcome.{Outcome, row, no_rows, failed}
use pairly.Postgres.Schema.{User}
use pairly.Postgres.Statement.{Statement}

abbrev pub has_email : String → User → Bool
has_email email u = u.email == email

-- A unique google_id; NULLs are never equal.
abbrev pub has_google_id : String → User → Bool
has_google_id google_id u = elim u.google_id [ none ↦ false | some g ↦ g == google_id ]

unfoldable pub create_user : String → String → String → Statement User
create_user email name password_hash db =
    if any (has_email email) db.users || not_fits email || not_fits name || not_fits password_hash
    then (failed, db)
    else (row user, record db { users = db.users ++ user ∷ []; next_id = db.next_id + 1 })
  where
    not_fits : String → Bool
    not_fits s = leb 256 (rune_count s)

    user : User
    user = record {
      id = db.next_id;
      email = email;
      name = name;
      password_hash = some password_hash;
      google_id = none;
      created_at = db.now;
    }

-- Scan refuses a NULL password_hash, which a Google account has: an error that is not ErrNoRows.
abbrev pub scan_user : Option User → Outcome User
scan_user none = no_rows
scan_user (some u) = elim u.password_hash [ none ↦ failed | some h ↦ row u ]

unfoldable pub get_user_by_email : String → Statement User
get_user_by_email email db = (scan_user (find (has_email email) db.users), db)

-- This query does not read password_hash.
unfoldable pub get_user_by_id : ℕ → Statement User
get_user_by_id id db =
    (elim (find (λ u. u.id == id) db.users) [ none ↦ no_rows | some u ↦ row u ], db)

-- ON CONFLICT (email) DO UPDATE; a google_id that another user has breaks its UNIQUE.
unfoldable pub upsert_google_user : String → String → String → Statement User
upsert_google_user google_id email name db = elim (find (has_email email) db.users) [
  | none ↦
      if any (has_google_id google_id) db.users
      then (failed, db)
      else (row fresh, record db { users = db.users ++ fresh ∷ []; next_id = db.next_id + 1 })
  | some u ↦
      if any (λ v. has_google_id google_id v && not_same v) db.users
      then (failed, db)
      else (row (linked u), record db { users = update (has_email email) linked db.users })
]
  where
    not_same : User → Bool
    not_same v = elim (v.email == email) [ true ↦ false | false ↦ true ]

    fresh : User
    fresh = record {
      id = db.next_id;
      email = email;
      name = name;
      password_hash = none;
      google_id = some google_id;
      created_at = db.now;
    }

    linked : User → User
    linked u = record u { google_id = some google_id; name = name }
