-- ===== src/Rooms/Shared.antt =====
-- backend/internal/rooms/helpers_handler.go, and what every handler of the package begins with.
pub mod Reads
pub mod Keeps
use pairly.Prelude.{
  nat_eq, ℕ, ◌+◌, String, Bool, true, false, not, Option, none, some, List, [], ◌∷◌, ◌++◌, map,
  if◌then◌else◌,
}
use pairly.Outcome.{Outcome, row, no_rows, failed, hang}
use pairly.Postgres.Schema.{Role, File, Db}
use pairly.Postgres.Statement.{Statement}
use pairly.Postgres.Rooms.{get_member_role, get_room_member_ids}
use pairly.Postgres.Files.{get_files_for_room}
use pairly.World.Env.{Env}
use pairly.World.Message.{
  Response, respond, Body, Channel, room_channel, notify_channel, Event, file_response,
}
use pairly.World.State.{World, Call, query, publish}
use pairly.World.Action.{Result, ok, stop, hangs, Action, call_or}

abbrev pub fail : ℕ → String → Response
fail status reason = respond status (Body.error reason)

abbrev pub said : String → Response
said text = respond 200 (Body.message text)

-- c.ShouldBindJSON: `none` is a body that is no JSON of the request's shape, and `valid` the tags.
unfoldable pub bind : {A : Type 0} → (A → Bool) → Option A → Action A
bind valid none w = (stop (respond 400 Body.binding_error), w)
bind valid (some a) w = (if valid a then ok a else stop (respond 400 Body.binding_error), w)

-- role, err := pg.GetMemberRole(...) with the two tests of its error.
unfoldable pub member_role : String → ℕ → ℕ → Action Role
member_role reason room_id user_id =
    call_or (fail 403 reason) (fail 500 "database error") (query (get_member_role room_id user_id))

-- publishPermission
unfoldable pub publish_permission : ℕ → Event → World → World
publish_permission room_id event = publish (room_channel room_id) event

-- publishFiles after its query: an error ends it, in silence.
unfoldable pub publish_listed : Env → ℕ → Outcome (List File) → World → Result (Unit {0}) × World
publish_listed env room_id (row fs) w =
    (ok tt, publish (room_channel room_id) (Event.files_updated (map (file_response env) fs)) w)
publish_listed env room_id no_rows w = (ok tt, w)
publish_listed env room_id failed w = (ok tt, w)
publish_listed env room_id hang w = (hangs, w)

-- publishFiles
unfoldable pub publish_files : Env → ℕ → World → Result (Unit {0}) × World
unfolding publish_listed
publish_files env room_id w =
    let (o, w') = query (get_files_for_room env.name_le room_id) w in
    publish_listed env room_id o w'

-- publishNotification
unfoldable pub publish_notification : ℕ → Event → World → World
publish_notification user_id event = publish (notify_channel user_id) event

-- The loop of publishNotificationToMembers.
unfoldable pub notify_all : List ℕ → Event → World → World
unfolding publish_notification
notify_all [] event w = w
notify_all (id ∷ ids) event w = notify_all ids event (publish_notification id event w)

-- publishNotificationToMembers after its query.
unfoldable pub notify_listed : Outcome (List ℕ) → Event → World → World
unfolding notify_all
notify_listed (row ids) event w = notify_all ids event w
notify_listed no_rows event w = w
notify_listed failed event w = w
notify_listed hang event w = w

-- publishNotificationToMembers
unfoldable pub publish_notification_to_members : ℕ → Event → World → World
unfolding notify_listed
publish_notification_to_members room_id event w =
    let (o, w') = query (get_room_member_ids room_id) w in notify_listed o event w'
