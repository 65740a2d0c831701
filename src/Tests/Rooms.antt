-- ===== src/Tests/Rooms.antt =====
-- The theorems of the handlers at a room with an owner and a viewer.
use pairly.Prelude.{nat_eq, ◌≡◌, refl, some, arith, find, any}
use pairly.Postgres.Schema.{owner, role_eq}
use pairly.Postgres.Links.{IsLinked}
use pairly.Postgres.Ownership.{owner_of}
use pairly.Postgres.Ownership.Roles.{role_in}
use pairly.Postgres.Rooms.{insert_room, insert_member}
use pairly.Postgres.Files.{insert_default_file, create_file, fits}
use pairly.Mongo.Documents.{create_document}
use pairly.Text.{trim_space}
use pairly.World.State.{World, query, mongo, and_then, transaction}
use pairly.World.Action.{attempt, pure, ◌>>=◌}
use pairly.Rooms.Shared.{bind}
use pairly.Rooms.RoomsHandler.{valid_name, create_room, create_room_call, save_new_document}
use pairly.Rooms.Routes.{Request, handle}
use pairly.Rooms.System.{Reach, Step, Reach-owner, Reach-IsLinked}
use pairly.Rooms.Access.Refused.{Refused}
use pairly.Rooms.Access.Rules.{IsDenied}
use pairly.Rooms.Access.Handlers.{handle-Refused}
use pairly.Tests.Fixtures.{env, world, db-IsOwned, db-IsLinked}

abbrev later : World
later = (handle env 1 (Request.post_room (some (record { name = "new" }))) world).1

reached : Reach env world later
reached = Reach.next Reach.here (Step.request world 1 _)

owns_new : role_in later.db 100 1 ≡ some owner
unfolding role_in handle find any create_room ◌>>=◌ bind valid_name attempt create_room_call
    transaction and_then query insert_room trim_space insert_member insert_default_file create_file
    fits mongo save_new_document create_document pure
owns_new = refl

Reach-owner_example : owner_of later.db.rooms 100 ≡ some 1
Reach-owner_example = Reach-owner env world later 100 1 db-IsOwned reached owns_new

Reach-IsLinked_example : IsLinked later.db
Reach-IsLinked_example = Reach-IsLinked env world later db-IsLinked reached

viewer-IsDenied : IsDenied world 2 (Request.delete 10) 10
unfolding role_in find
viewer-IsDenied r found = ground arith

handle-Refused_example : Refused world (handle env 2 (Request.delete 10) world)
handle-Refused_example = handle-Refused env world 2 10 (Request.delete 10) refl viewer-IsDenied
