-- ===== src/Tests/Fixtures.antt =====
-- A room with a tree of files, and the infrastructure, for the tests.
use pairly.Prelude.{
  nat_eq, string_eq, ℕ, String, Bool, true, false, Option, none, some, List, [], ◌∷◌, ◌++◌, arith,
  refl, find, any, ◌==◌, if◌then◌else◌,
}
use Prim.Native.String.{◌++◌ as concat}
use pairly.Postgres.Schema.{owner, viewer, User, File, Db}
use pairly.Postgres.Ownership.{IsOwned, owner_of}
use pairly.Postgres.Files.{fits}
use pairly.Postgres.Links.{IsLinked}
use pairly.Mongo.Documents.{YjsDocument}
use pairly.World.Env.{Env}
use pairly.World.State.{World}

-- A document of the tests is the bytes of its updates, and a byte is an "a" or a "b".
abbrev letters : List ℕ → String
letters [] = ""
letters (b ∷ bs) = concat (if b == 97 then "a" else "b") (letters bs)

abbrev pub env : Env
env = record {
  Doc = List ℕ;
  new_doc = [];
  apply_update = λ d b. d ++ b;
  get_text = letters;
  is_email = λ s. s == "bob@x.org";
  to_lower = λ s. s;
  name_le = λ a b. true;
  format_time = λ t. "now";
}

abbrev user : ℕ → String → User
user id email = record {
  id = id;
  email = email;
  name = "user";
  password_hash = some "hash";
  google_id = none;
  created_at = 1;
}

-- An id, a name, a parent, and whether it is a folder.
abbrev pub node : ℕ → String → Option ℕ → Bool → File
node id name parent_id is_folder = record {
  id = id;
  room_id = 10;
  name = name;
  language = if is_folder then "" else "python";
  parent_id = parent_id;
  is_folder = is_folder;
  is_active = true;
  created_by = 1;
  created_at = 2;
  updated_at = none;
}

-- src/docs/b.py, src/a.py and main.py
abbrev pub files : List File
files =
    node 20 "src" none true
    ∷ node 21 "a.py" (some 20) false
    ∷ node 22 "docs" (some 20) true
    ∷ node 23 "b.py" (some 22) false
    ∷ node 24 "main.py" none false
    ∷ []

-- User 1 owns room 10, and user 2 is a viewer.
abbrev pub db : Db
db = record {
  users = user 1 "ann@x.org" ∷ user 2 "bob@x.org" ∷ [];
  rooms = record { id = 10; name = "demo"; owner_id = 1; created_at = 2 } ∷ [];
  members =
      record { room_id = 10; user_id = 1; role = owner; joined_at = 2 }
      ∷ record { room_id = 10; user_id = 2; role = viewer; joined_at = 3 }
      ∷ [];
  files = files;
  next_id = 100;
  now = 5;
}

abbrev pub document : YjsDocument
document = record {
  file_id = 21;
  room_id = some 10;
  yjs_state = 97 ∷ [];
  version = 1;
  updated_at = 4;
}

-- The infrastructure never fails.
abbrev pub world : World
world = record {
  db = db;
  documents = document ∷ [];
  snapshots = [];
  executions = [];
  published = [];
  edit_events = [];
  dead_letters = [];
  tasks = [];
  faults = λ n. false;
  calls = 0;
}

pub db-IsOwned : IsOwned db
db-IsOwned = record {
  fresh = (omega arith, tt);
  rightful = ((λ e. unfold owner_of find in refl), ((λ e. absurd (cc)), tt));
}

pub db-IsLinked : IsLinked db
unfolding fits any
db-IsLinked = record {
  members = (refl, (refl, tt));
  files = (refl, (refl, (refl, (refl, (refl, tt)))));
}
