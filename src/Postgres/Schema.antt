-- ===== src/Postgres/Schema.antt =====
-- The tables of backend/migrations and the structs that backend/internal/postgres scans them into.
-- A uuid is only stored and compared, so it is a number; a timestamp is a number too.
use pairly.Prelude.{
  nat_eq, string_eq, ℕ, String, ◌≡◌, ◌↔◌, Bool, true, false, ◌&&◌, Option, List, arith, Comparable,
  ◌==◌,
}

-- CREATE TYPE member_role
pub data Role : Type 0 where
  owner editor viewer : Role

abbrev pub role_beq : Role → Role → Bool
role_beq owner owner = true
role_beq editor editor = true
role_beq viewer viewer = true
role_beq _ _ = false

pub role_beq_iff : (a b : Role) → (role_beq a b ≡ true) ↔ (a ≡ b)
role_beq_iff a b = ground arith

instance abbrev pub role_eq : Comparable Role
role_eq = record { same = role_beq; same_iff = role_beq_iff }

-- A Google account has no password hash.
pub record User : Type 0 where
  pub id : ℕ
  pub email : String
  pub name : String
  pub password_hash : Option String
  pub google_id : Option String
  pub created_at : ℕ

pub record Room : Type 0 where
  pub id : ℕ
  pub name : String
  pub owner_id : ℕ
  pub created_at : ℕ

-- A row of room_members.
pub record Member : Type 0 where
  pub room_id : ℕ
  pub user_id : ℕ
  pub role : Role
  pub joined_at : ℕ

pub record File : Type 0 where
  pub id : ℕ
  pub room_id : ℕ
  pub name : String
  pub language : String
  pub parent_id : Option ℕ
  pub is_folder : Bool
  pub is_active : Bool
  pub created_by : ℕ
  pub created_at : ℕ
  pub updated_at : Option ℕ

-- `next_id` is what gen_random_uuid() gives next, and `now` is NOW().
pub record Db : Type 0 where
  pub users : List User
  pub rooms : List Room
  pub members : List Member
  pub files : List File
  pub next_id : ℕ
  pub now : ℕ

-- The tests that a foreign key makes.
abbrev pub is_user : ℕ → User → Bool
is_user id u = u.id == id

abbrev pub is_room : ℕ → Room → Bool
is_room id r = r.id == id

abbrev pub is_file : ℕ → File → Bool
is_file id f = f.id == id

abbrev pub is_membership : ℕ → ℕ → Member → Bool
is_membership room_id user_id m = m.room_id == room_id && m.user_id == user_id
