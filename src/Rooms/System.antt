-- ===== src/Rooms/System.antt =====
-- The server over time: requests of any users in any order, registrations and Google logins with any
-- cryptography, goroutines that run at any time after they were started, and a clock. The other
-- handlers of backend/internal/auth, the hubs and the executor are left out: they write no tables.
use pairly.Prelude.{ℕ, ◌+◌, ◌≡◌, List, ◌∷◌, ◌++◌, arith}
use pairly.World.Env.{Env}
use pairly.World.State.{World, Task, publish_edit, snapshot}
use pairly.Postgres.Ownership.{IsOwned}
use pairly.Postgres.Schema.{owner, Db}
use pairly.Postgres.Ownership.Roles.{role_in, role_in-IsRightful}
use pairly.Postgres.Ownership.{owner_of}
use pairly.Rooms.StateHandler.{run_task}
use pairly.Rooms.Routes.{Request, handle}
use pairly.Postgres.Files.{fits}
use pairly.Postgres.Links.{IsLinked}
use pairly.Rooms.Invariants.{IsKept}
use pairly.Rooms.Invariants.Handlers.{handle-Keeps}
use pairly.Rooms.Links.{IsLinked-IsKept}
use pairly.Rooms.Ownership.CreateRoom.{IsOwned-IsKept}
use mathlib.Core.Option.{Option, some}
use Prim.Native.String.{String}
use pairly.Auth.Tokens.{Crypto}
use pairly.Auth.Handler.{RegisterRequest, register_user}
use pairly.Auth.Google.{google_callback}
use pairly.Auth.Keeps.{
  IsKeptByUsers, register_user-Keeps, google_callback-Keeps, IsLinked-IsKeptByUsers,
  IsOwned-IsKeptByUsers,
}

pub data Step (env : Env) : World → World → Type 0 where
  request : (w : World) (user : ℕ) (req : Request) → Step env w (handle env user req w).1
  run :
      (w : World) (before after : List Task) (t : Task)
      → w.tasks ≡ before ++ t ∷ after
      → Step env w (run_task t (record w { tasks = before ++ after }))
  sign_up :
      (w : World) (crypto : Crypto) (body : Option RegisterRequest)
      → Step env w (register_user env crypto body w).1
  google :
      (w : World) (crypto : Crypto) (cookie : Option String) (state code : String)
      → Step env w (google_callback crypto cookie state code w).1
  tick : (w : World) (n : ℕ) → Step env w (record w { db = record w.db { now = w.db.now + n } })

pub data Reach (env : Env) (w : World) : World → Type 0 where
  here : Reach env w w
  next : {v u : World} → Reach env w v → Step env v u → Reach env w u

run_task_db : (t : Task) (w : World) → (run_task t w).db ≡ w.db
unfolding run_task
run_task_db (publish_edit e) w = ground arith
run_task_db (snapshot f r v t) w = ground arith

-- A predicate on the tables that the statements and the clock keep holds after every history.
module _ {I : Db → Type 0} (k : IsKept I) (users : IsKeptByUsers I)
    (ticks : (db : Db) (n : ℕ) → I db → I (record db { now = db.now + n })) where
  Step-keeps : {env : Env} {w v : World} → Step env w v → I w.db → I v.db
  Step-keeps {env} (request w user req) h =
      ((handle-Keeps k env user req).at w (record { tables = h })).tables
  Step-keeps (run w before after t e) h = rw run_task_db h
  Step-keeps {env} (sign_up w crypto body) h =
      ((register_user-Keeps users env crypto body).at w (record { tables = h })).tables
  Step-keeps (google w crypto cookie state code) h =
      ((google_callback-Keeps users crypto cookie state code).at w (record { tables = h })).tables
  Step-keeps (tick w n) h = ticks w.db n h

  Reach-keeps : {env : Env} {w v : World} → Reach env w v → I w.db → I v.db
  Reach-keeps here h = h
  Reach-keeps (next r s) h = Step-keeps s (Reach-keeps r h)

IsLinked-tick : (db : Db) (n : ℕ) → IsLinked db → IsLinked (record db { now = db.now + n })
unfolding fits
IsLinked-tick db n h = record { members = h.members; files = h.files }

-- From tables whose links hold (the rooms and users of members, and the rooms, creators and
-- parents of files exist; names and languages fit their columns, and folders have no language),
-- every history of requests, registrations, Google logins, goroutines and clock ticks, under any
-- faults, leads to tables whose links hold.
pub Reach-IsLinked : (env : Env) (w v : World) → IsLinked w.db → Reach env w v → IsLinked v.db
Reach-IsLinked env w v h r = Reach-keeps IsLinked-IsKept IsLinked-IsKeptByUsers IsLinked-tick r h

-- From tables in which only the user that a room's row names holds the role of owner there (and
-- the rooms' ids have been given out), every history of requests, registrations, Google logins,
-- goroutines and clock ticks, under any faults, leads to tables in which a member with the role of
-- owner is the user that the room's row names.
pub Reach-owner :
    (env : Env) (w v : World) (room user : ℕ)
    → IsOwned w.db
    → Reach env w v
    → role_in v.db room user ≡ some owner
    → owner_of v.db.rooms room ≡ some user
Reach-owner env w v room user h r e =
    role_in-IsRightful v.db room user
      (Reach-keeps IsOwned-IsKept IsOwned-IsKeptByUsers
        (λ db n o. record { fresh = o.fresh; rightful = o.rightful }) r h).rightful
      e
