-- ===== src/Rooms/MembersHandler.antt =====
-- backend/internal/rooms/members_handler.go
use pairly.Prelude.{nat_eq, string_eq, ℕ, String, Bool, not, ◌&&◌, ◌||◌, Option, map, ◌==◌}
use pairly.Postgres.Schema.{Role, role_eq, owner, User}
use pairly.Postgres.Users.{get_user_by_email}
use pairly.Postgres.Rooms.{
  with_role, add_member, get_room_name, list_members, remove_member, update_member_role,
}
use pairly.World.Env.{Env}
use pairly.World.Message.{Response, respond, Body, MemberResponse, Event}
use pairly.World.State.{query}
use pairly.World.Action.{Action, pure, call_or, attempt, ignoring, modify, stop_if, ◌>>=◌, ◌>>◌}
use pairly.Rooms.Shared.{fail, said, bind, member_role, publish_permission, publish_notification}

pub record AddMemberRequest : Type 0 where
  pub email : String
  pub role : String

-- binding:"required,oneof=editor viewer"
abbrev pub valid_role : String → Bool
valid_role role = role == "editor" || role == "viewer"

unfoldable pub valid_add_member : Env → AddMemberRequest → Bool
valid_add_member env req = not (req.email == "") && env.is_email req.email && valid_role req.role

abbrev pub member_response : User → Role → MemberResponse
member_response u role = record { user_id = u.id; email = u.email; name = u.name; role = role }

-- AddMember
unfoldable pub add_member_handler : Env → ℕ → ℕ → Option AddMemberRequest → Action Response
add_member_handler env room_id caller_id body = do
  req ← bind (valid_add_member env) body
  role ← member_role "not a member" room_id caller_id
  stop_if (not (role == owner)) (fail 403 "only the owner can invite members")
  target ←
      call_or (fail 404 "no user found with that email") (fail 500 "database error")
        (query (get_user_by_email (env.to_lower req.email)))
  attempt (fail 500 "could not add member")
      (query (with_role req.role (add_member room_id target.id)))
  name ← ignoring "" (query (get_room_name room_id))
  modify (publish_notification target.id (Event.room_invited room_id name req.role))
  pure (respond 200 (Body.member_added target.id target.email target.name req.role))

-- ListMembers
unfoldable pub list_members_handler : ℕ → ℕ → Action Response
list_members_handler room_id user_id = do
  member_role "not a member" room_id user_id
  found ← attempt (fail 500 "could not list members") (query (list_members room_id))
  pure (respond 200 (Body.members (map (λ m. member_response m.user m.role) found)))

-- RemoveMember
unfoldable pub remove_member_handler : ℕ → ℕ → ℕ → Action Response
remove_member_handler room_id target_id caller_id = do
  role ← member_role "not a member" room_id caller_id
  stop_if (not (role == owner)) (fail 403 "only owner can remove members")
  stop_if (target_id == caller_id) (fail 400 "cannot remove yourself")
  attempt (fail 500 "could not remove member") (query (remove_member room_id target_id))
  modify (publish_permission room_id (Event.removed target_id))
  pure (said "member removed")

-- UpdateMemberRole; the body is the text of updateRoleRequest's role.
unfoldable pub update_member_role_handler : ℕ → ℕ → ℕ → Option String → Action Response
update_member_role_handler room_id target_id caller_id body = do
  req ← bind valid_role body
  role ← member_role "not a member" room_id caller_id
  stop_if (not (role == owner)) (fail 403 "only owner can change roles")
  attempt (fail 500 "could not update role")
      (query (with_role req (update_member_role room_id target_id)))
  modify (publish_permission room_id (Event.role_changed target_id req))
  pure (respond 200 (Body.role_updated req))
