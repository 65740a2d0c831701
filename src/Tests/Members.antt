-- ===== src/Tests/Members.antt =====
-- The theorems of the statements on members, at a room with an owner and a viewer.
use pairly.Prelude.{nat_eq, ◌≡◌, refl, none, some, any}
use pairly.Outcome.{row}
use pairly.Postgres.Schema.{editor}
use pairly.Postgres.Rooms.{add_member, delete_room}
use pairly.Postgres.Rooms.Effects.{role_in-add_member, role_in-delete_room}
use pairly.Postgres.Ownership.Roles.{role_in}
use pairly.Tests.Fixtures.{db}

invited : (add_member 10 2 editor db).0 ≡ row tt
unfolding add_member any
invited = refl

role_in-add_member_example : role_in (add_member 10 2 editor db).1 10 2 ≡ some editor
role_in-add_member_example = role_in-add_member db 10 2 10 2 editor invited

role_in-delete_room_example : role_in (delete_room 10 db).1 10 1 ≡ none
role_in-delete_room_example = role_in-delete_room db 10 10 1
