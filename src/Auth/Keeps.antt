-- ===== src/Auth/Keeps.antt =====
-- What the handlers of backend/internal/auth keep: a predicate on the tables that the two statements
-- on users keep.
use pairly.Prelude.{
  ℕ, ◌≤◌, ◌<◌, String, ◌≡◌, refl, sym, ap, subst, ◌∙◌, inl, inr, true, Option, none, some, [], ◌∷◌,
  arith, string_eq, nat_eq, Bool-cases, Option-cases, any, find, All, All-map, any-append,
  any-update,
}
use pairly.Postgres.Schema.{User, Db, is_user, is_room, is_file}
use pairly.Postgres.Users.{create_user, upsert_google_user, has_email}
use pairly.Postgres.Links.{IsLinked, is_linked, Grows, fits-Grows, is_linked-Grows}
use pairly.Postgres.Ownership.{IsOwned}
use pairly.Postgres.Files.{fits}
use pairly.World.Env.{Env}
use pairly.World.Action.Keeps.{Keeps, keeps_rules}
use pairly.World.Action.Tables.{OfDb, KeepsDb, KeepsCall-query, ReadOnly-KeepsDb}
use pairly.Rooms.Shared.Reads.{get_user_by_email-ReadOnly}
use pairly.Rooms.Shared.Keeps.{Keeps-request}
use pairly.Auth.Tokens.{Crypto, issue_or_stop}
use pairly.Auth.Handler.{RegisterRequest, reject_existing, hash_or_stop, register_user}
use pairly.Auth.Google.{exchange_code, callback_code, google_callback, bad_state}

pub record IsKeptByUsers (I : Db → Type 0) : Type 0 where
  pub by_create_user : (email name hash : String) → KeepsDb I (create_user email name hash)
  pub by_upsert_google_user :
      (id email name : String) → KeepsDb I (upsert_google_user id email name)

module _ {I : Db → Type 0} where
  Keeps-reject_existing : (email : String) → Keeps (OfDb I) (reject_existing email)
  unfolding reject_existing
  Keeps-reject_existing email = record {
    at = (KeepsCall-query _ (ReadOnly-KeepsDb _ (get_user_by_email-ReadOnly email))).at;
  }

  Keeps-hash_or_stop : (crypto : Crypto) (p : String) → Keeps (OfDb I) (hash_or_stop crypto p)
  unfolding hash_or_stop
  Keeps-hash_or_stop crypto p = record { at = λ w h. h }

  Keeps-issue_or_stop :
      (crypto : Crypto) (id : ℕ) (email : String) → Keeps (OfDb I) (issue_or_stop crypto id email)
  unfolding issue_or_stop
  Keeps-issue_or_stop crypto id email = record { at = λ w h. h }

  Keeps-exchange_code :
      (crypto : Crypto) (code : String) → Keeps (OfDb I) (exchange_code crypto code)
  unfolding exchange_code
  Keeps-exchange_code crypto code = record { at = λ w h. h }

module _ {I : Db → Type 0} (k : IsKeptByUsers I) where
  create_user-KeepsDb : (email name hash : String) → KeepsDb I (create_user email name hash)
  create_user-KeepsDb = k.by_create_user

  upsert_google_user-KeepsDb :
      (id email name : String) → KeepsDb I (upsert_google_user id email name)
  upsert_google_user-KeepsDb = k.by_upsert_google_user

ruleset auth_steps = (
  keeps_rules, Keeps-request, KeepsCall-query, Keeps-reject_existing, Keeps-hash_or_stop,
  Keeps-issue_or_stop, Keeps-exchange_code, create_user-KeepsDb, upsert_google_user-KeepsDb,
)

module _ {I : Db → Type 0} (k : IsKeptByUsers I) where
  pub register_user-Keeps :
      (env : Env) (crypto : Crypto) (body : Option RegisterRequest)
      → Keeps (OfDb I) (register_user env crypto body)
  unfolding register_user
  register_user-Keeps env crypto body = search auth_steps depth 20

  callback_code-Keeps :
      (crypto : Crypto) (code : String) → Keeps (OfDb I) (callback_code crypto code)
  unfolding callback_code
  callback_code-Keeps crypto code = search auth_steps depth 20

  pub google_callback-Keeps :
      (crypto : Crypto) (cookie : Option String) (state code : String)
      → Keeps (OfDb I) (google_callback crypto cookie state code)
  unfolding google_callback
  google_callback-Keeps crypto cookie state code = record {
    at = λ w h. elim (Bool-cases (bad_state cookie state)) [
      | inl e ↦ rw (e, google_callback) h
      | inr e ↦ rw (e, google_callback) ((callback_code-Keeps crypto code).at w h)
    ];
  }

-- A statement that writes users only, and removes none.
record OnlyUsers (db db' : Db) : Type 0 where
  rooms : db'.rooms ≡ db.rooms
  members : db'.members ≡ db.members
  files : db'.files ≡ db.files
  next_id : db.next_id ≤ db'.next_id
  users : (x : ℕ) → any (is_user x) db.users ≡ true → any (is_user x) db'.users ≡ true

-- A row that a statement adds to users.
abbrev account : Db → String → String → Option String → Option String → User
account db email name password_hash google_id = record {
  id = db.next_id;
  email = email;
  name = name;
  password_hash = password_hash;
  google_id = google_id;
  created_at = db.now;
}

create_user-OnlyUsers :
    (email name hash : String) (db : Db) → OnlyUsers db (create_user email name hash db).1
unfolding create_user
create_user-OnlyUsers email name hash db = record {
  rooms = ground arith;
  members = ground arith;
  files = ground arith;
  next_id = ground arith;
  users = λ x h.
      ground
        (arith, any-append (is_user x) db.users (account db email name (some hash) none ∷ []) h);
}

upsert_google_user-OnlyUsers :
    (id email name : String) (db : Db) → OnlyUsers db (upsert_google_user id email name db).1
unfolding upsert_google_user
upsert_google_user-OnlyUsers id email name db = record {
  rooms = ground arith;
  members = ground arith;
  files = ground arith;
  next_id = ground arith;
  users = λ x h. elim (Option-cases (find (has_email email) db.users)) [
    | inl e ↦
        ground
          (arith, any-append (is_user x) db.users (account db email name none (some id) ∷ []) h)
    | inr (u, e) ↦ ground (
      arith,
      any-update (is_user x) (has_email email) (λ v. record v { google_id = some id; name = name })
          db.users (λ y. refl),
    )
  ];
}

OnlyUsers-IsLinked : (db db' : Db) → OnlyUsers db db' → IsLinked db → IsLinked db'
OnlyUsers-IsLinked db db' o h =
    let grows : Grows db db' = record {
      rooms = λ x e. ap (λ rs. any (is_room x) rs) o.rooms ∙ e;
      users = o.users;
      files = λ x e. ap (λ fs. any (is_file x) fs) o.files ∙ e;
    } in
    record {
      members =
          subst (λ ms. All (λ m. is_linked db' m ≡ true) ms) (sym o.members)
            (All-map (is_linked-Grows db db' grows) db.members h.members);
      files =
          subst (λ fs. All (λ f. fits db' f ≡ true) fs) (sym o.files)
            (All-map (fits-Grows db db' grows) db.files h.files);
    }

OnlyUsers-IsOwned : (db db' : Db) → OnlyUsers db db' → IsOwned db → IsOwned db'
OnlyUsers-IsOwned db db' o h = record {
  fresh =
      subst (λ rs. All (λ r. r.id < db'.next_id) rs) (sym o.rooms)
        (All-map (λ r l. omega (arith, o.next_id)) db.rooms h.fresh);
  rightful = rw (o.rooms, o.members) h.rightful;
}

-- The links and the owners hold along the statements on users.
pub IsLinked-IsKeptByUsers : IsKeptByUsers IsLinked
IsLinked-IsKeptByUsers = record {
  by_create_user = λ email name hash. record {
    at = λ db h. OnlyUsers-IsLinked db _ (create_user-OnlyUsers email name hash db) h;
  };
  by_upsert_google_user = λ id email name. record {
    at = λ db h. OnlyUsers-IsLinked db _ (upsert_google_user-OnlyUsers id email name db) h;
  };
}

pub IsOwned-IsKeptByUsers : IsKeptByUsers IsOwned
IsOwned-IsKeptByUsers = record {
  by_create_user = λ email name hash. record {
    at = λ db h. OnlyUsers-IsOwned db _ (create_user-OnlyUsers email name hash db) h;
  };
  by_upsert_google_user = λ id email name. record {
    at = λ db h. OnlyUsers-IsOwned db _ (upsert_google_user-OnlyUsers id email name db) h;
  };
}
