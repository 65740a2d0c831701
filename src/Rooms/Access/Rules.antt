-- ===== src/Rooms/Access/Rules.antt =====
-- The access rules: README.md's roles, as a table of requests and roles.
use pairly.Prelude.{
  nat_eq, string_eq, ℕ, ◌≡◌, refl, ap, sym, ◌∙◌, Bool, true, false, not, Option, none, some, ◌==◌,
}
use pairly.Postgres.Schema.{Role, owner, viewer, role_eq}
use pairly.Postgres.Ownership.Roles.{role_in}
use pairly.World.State.{World}
use pairly.Rooms.Routes.{
  Request, post_room, list, role, delete, leave, rename, files, post_file, patch_file, toggle,
  permanent, post_state, get_state, history, history_at, post_member, members, delete_member,
  patch_member, execution,
}

-- The room that a request is about; none for the list of rooms and for a new one.
abbrev pub room_of : Request → Option ℕ
room_of (post_room body) = none
room_of list = none
room_of (role room) = some room
room_of (delete room) = some room
room_of (leave room) = some room
room_of (rename room body) = some room
room_of (files room) = some room
room_of (post_file room body) = some room
room_of (patch_file room file body) = some room
room_of (toggle room file) = some room
room_of (permanent room file) = some room
room_of (post_state room file body) = some room
room_of (get_state room file) = some room
room_of (history room file) = some room
room_of (history_at room file version) = some room
room_of (post_member room body) = some room
room_of (members room) = some room
room_of (delete_member room target) = some room
room_of (patch_member room target body) = some room
room_of (execution room file) = some room

-- The access rules of README.md: owners manage the room and its members, owners and editors
-- change files, and everybody but the owner may leave.
abbrev pub allowed : Request → Role → Bool
allowed (delete room) r = r == owner
allowed (rename room body) r = r == owner
allowed (post_member room body) r = r == owner
allowed (delete_member room target) r = r == owner
allowed (patch_member room target body) r = r == owner
allowed (leave room) r = not (r == owner)
allowed (post_file room body) r = not (r == viewer)
allowed (patch_file room file body) r = not (r == viewer)
allowed (toggle room file) r = not (r == viewer)
allowed (permanent room file) r = not (r == viewer)
allowed (post_state room file body) r = not (r == viewer)
allowed _ r = true

-- Nobody who is found in the room may make the request.
abbrev pub IsDenied : World → ℕ → Request → ℕ → Type 0
IsDenied w user req room = (r : Role) → role_in w.db room user ≡ some r → allowed req r ≡ false

pub no_role : (o : Option Role) → ((r : Role) → o ≡ some r → true ≡ false) → o ≡ none
no_role none h = refl
no_role (some r) h = absurd (not_true (h r refl))
  where
    not_true : true ≡ false → ⊥
    not_true e = cc

-- The same denial, at a room that is named otherwise.
pub moved :
    (w : World) (user : ℕ) (req : Request) (room r : ℕ)
    → some r ≡ some room
    → IsDenied w user req room
    → IsDenied w user req r
moved w user req room r e d r' found =
    d r' (ap (λ (x : ℕ). role_in w.db x user) (sym (room_eq e)) ∙ found)
  where
    room_eq : some r ≡ some room → r ≡ room
    room_eq q = cc
