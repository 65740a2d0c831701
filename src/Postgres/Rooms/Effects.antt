-- ===== src/Postgres/Rooms/Effects.antt =====
-- What the statements on members do to the role of each user in each room.
use pairly.Prelude.{
  nat_eq, ℕ, ◌≡◌, Bool, true, false, not, ◌&&◌, Option, none, some, List, [], ◌∷◌, ◌++◌, arith,
  ◌==◌, ==_iff, any, find, keep, update, if◌then◌else◌, Bool-cases, inl, inr,
}
use pairly.Outcome.{row}
use pairly.Postgres.Schema.{Role, Member, Db, is_membership}
use pairly.Postgres.Rooms.{
  insert_member, add_member, remove_member, update_member_role, delete_room,
}
use pairly.Postgres.Ownership.Roles.{role_in}

-- The role that a list of memberships gives: role_in of a table.
role_of_list : List Member → ℕ → ℕ → Option Role
role_of_list ms r u = elim (find (is_membership r u) ms) [ none ↦ none | some m ↦ some m.role ]

abbrev same_member : ℕ → ℕ → ℕ → ℕ → Bool
same_member r u r' u' = r == r' && u == u'

updated :
    (ms : List Member) (r u r' u' : ℕ) (role : Role)
    → role_of_list (update (is_membership r u) (λ m. record m { role = role }) ms) r' u' ≡ (
        if same_member r u r' u'
        then elim (role_of_list ms r' u') [ none ↦ none | some old ↦ some role ]
        else role_of_list ms r' u')
unfolding role_of_list find update
updated [] r u r' u' role = ground arith
updated (m ∷ ms) r u r' u' role = ground (
  arith,
  updated ms r u r' u' role,
  ==_iff m.room_id r,
  ==_iff m.user_id u,
  ==_iff m.room_id r',
  ==_iff m.user_id u',
  ==_iff r r',
  ==_iff u u',
)

removed :
    (ms : List Member) (r u r' u' : ℕ)
    → role_of_list (keep (λ m. not (is_membership r u m)) ms) r' u'
      ≡ (if same_member r u r' u' then none else role_of_list ms r' u')
unfolding role_of_list find keep
removed [] r u r' u' = ground arith
removed (m ∷ ms) r u r' u' = ground (
  arith,
  removed ms r u r' u',
  ==_iff m.room_id r,
  ==_iff m.user_id u,
  ==_iff m.room_id r',
  ==_iff m.user_id u',
  ==_iff r r',
  ==_iff u u',
)

-- UpdateMemberRole gives the user the role if the user is a member of the room, and leaves every
-- other role, in every room.
role_in-update_member_role :
    (db : Db) (r u r' u' : ℕ) (role : Role)
    → role_in (update_member_role r u role db).1 r' u' ≡ (
        if r == r' && u == u'
        then elim (role_in db r' u') [ none ↦ none | some old ↦ some role ]
        else role_in db r' u')
unfolding role_in update_member_role role_of_list
role_in-update_member_role db r u r' u' role = updated db.members r u r' u' role

-- RemoveMember takes the user out of the room, and leaves every other role, in every room.
role_in-remove_member :
    (db : Db) (r u r' u' : ℕ)
    → role_in (remove_member r u db).1 r' u'
      ≡ (if r == r' && u == u' then none else role_in db r' u')
unfolding role_in remove_member role_of_list
role_in-remove_member db r u r' u' = removed db.members r u r' u'

appended :
    (ms : List Member) (m : Member) (r' u' : ℕ)
    → any (is_membership m.room_id m.user_id) ms ≡ false
    → role_of_list (ms ++ m ∷ []) r' u'
      ≡ (if same_member m.room_id m.user_id r' u' then some m.role else role_of_list ms r' u')
unfolding role_of_list find any
appended [] m r' u' h = ground (arith, ==_iff m.room_id r', ==_iff m.user_id u')
appended (n ∷ ms) m r' u' h = ground (
  arith,
  appended ms m r' u',
  ==_iff n.room_id m.room_id,
  ==_iff n.user_id m.user_id,
  ==_iff n.room_id r',
  ==_iff n.user_id u',
  ==_iff m.room_id r',
  ==_iff m.user_id u',
)

found_role :
    (ms : List Member) (r u : ℕ)
    → any (is_membership r u) ms ≡ true
    → (old : Role) × (role_of_list ms r u ≡ some old)
unfolding role_of_list find any
found_role [] r u h = absurd (cc)
found_role (m ∷ ms) r u h = elim (Bool-cases (is_membership r u m)) [
  | inl e ↦ (m.role, ground arith)
  | inr e ↦ let (old, q) = found_role ms r u (ground arith) in (old, ground arith)
]

-- AddMember that goes through gives the user the role in the room, whether the user was a member
-- before or not, and leaves every other role, in every room.
pub role_in-add_member :
    (db : Db) (r u r' u' : ℕ) (role : Role)
    → (add_member r u role db).0 ≡ row tt
    → role_in (add_member r u role db).1 r' u'
      ≡ (if r == r' && u == u' then some role else role_in db r' u')
unfolding role_in add_member insert_member role_of_list
role_in-add_member db r u r' u' role h = elim (Bool-cases (any (is_membership r u) db.members)) [
  | inl known ↦
      let (old, q) = found_role db.members r u known in
      ground (arith, updated db.members r u r' u' role, ==_iff r r', ==_iff u u')
  | inr new ↦ ground (
    arith,
    appended db.members (record { room_id = r; user_id = u; role = role; joined_at = db.now }) r' u'
        new,
  )
]

left_room :
    (ms : List Member) (r r' u' : ℕ)
    → role_of_list (keep (λ m. not (m.room_id == r)) ms) r' u'
      ≡ (if r == r' then none else role_of_list ms r' u')
unfolding role_of_list find keep
left_room [] r r' u' = ground arith
left_room (m ∷ ms) r r' u' =
    ground (arith, left_room ms r r' u', ==_iff m.room_id r, ==_iff m.room_id r', ==_iff r r')

-- DeleteRoom leaves nobody a role in the room, and every role in every other room.
pub role_in-delete_room :
    (db : Db) (r r' u' : ℕ)
    → role_in (delete_room r db).1 r' u' ≡ (if r == r' then none else role_in db r' u')
unfolding role_in delete_room role_of_list
role_in-delete_room db r r' u' = left_room db.members r r' u'
