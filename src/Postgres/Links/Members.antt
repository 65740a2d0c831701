-- ===== src/Postgres/Links/Members.antt =====
-- The statements on rooms and members keep the links.
use pairly.Prelude.{
  nat_eq, string_eq, ℕ, ◌+◌, ◌≡◌, refl, sym, subst, ◌∙◌, String, true, false, not, ◌&&◌, List, [],
  ◌∷◌, ◌++◌, arith, ◌==◌, ==_iff, any, keep, update, All, All-append, All-map, All-keep, All-update,
  All-keep-map, any-append, any-update, any-keep,
}
use pairly.Postgres.Schema.{Role, Room, Member, File, Db, is_room}
use pairly.Postgres.Rooms.{
  insert_room, insert_member, add_member, remove_member, leave_room, update_member_role,
  rename_room, delete_room,
}
use pairly.Postgres.Files.{fits}
use pairly.Postgres.Links.{IsLinked, Grows, is_linked, fits-Grows, is_linked-Grows, cut-fits}

IsLinked-Grows :
    (db db' : Db)
    → Grows db db'
    → db'.members ≡ db.members
    → db'.files ≡ db.files
    → IsLinked db
    → IsLinked db'
IsLinked-Grows db db' g m f v = record {
  members =
      subst (λ (l : List Member). All (λ x. is_linked db' x ≡ true) l) (sym m)
        (All-map (λ x. is_linked-Grows db db' g x) db.members v.members);
  files =
      subst (λ (l : List File). All (λ x. fits db' x ≡ true) l) (sym f)
        (All-map (λ x. fits-Grows db db' g x) db.files v.files);
}

never_both :
    (r x : ℕ) (rs : List Room) → (x == r) ≡ false → any (λ y. is_room x y && is_room r y) rs ≡ false
unfolding any
never_both r x [] e = refl
never_both r x (y ∷ rs) e =
    ground (arith, never_both r x rs e, ==_iff y.id x, ==_iff y.id r, ==_iff x r)

module _ (db : Db) (v : IsLinked db) where
  with_room :
      (r : Room) → IsLinked (record db { rooms = db.rooms ++ r ∷ []; next_id = db.next_id + 1 })
  with_room r =
      IsLinked-Grows db _
        (record {
          rooms = λ x. any-append (is_room x) db.rooms _;
          users = λ x h. h;
          files = λ x h. h;
        })
        refl refl v

  pub insert_room-IsLinked : (name : String) (u : ℕ) → IsLinked (insert_room name u db).1
  unfolding insert_room
  insert_room-IsLinked name u = ground (
    arith,
    with_room (record { id = db.next_id; name = name; owner_id = u; created_at = db.now }),
  )

  with_member :
      (m : Member) → is_linked db m ≡ true → IsLinked (record db { members = db.members ++ m ∷ [] })
  unfolding fits
  with_member m h = record {
    members = All-append _ db.members _ v.members (h, tt);
    files = v.files;
  }

  pub insert_member-IsLinked : (r u : ℕ) (role : Role) → IsLinked (insert_member r u role db).1
  unfolding insert_member
  insert_member-IsLinked r u role =
      ground
        (arith, with_member (record { room_id = r; user_id = u; role = role; joined_at = db.now }))

  pub update_member_role-IsLinked :
      (r u : ℕ) (role : Role) → IsLinked (update_member_role r u role db).1
  unfolding update_member_role fits
  update_member_role-IsLinked r u role = record {
    members = All-update _ _ _ db.members (λ m _ h. h) v.members;
    files = v.files;
  }

  pub add_member-IsLinked : (r u : ℕ) (role : Role) → IsLinked (add_member r u role db).1
  unfolding add_member update_member_role
  add_member-IsLinked r u role =
      ground (arith, insert_member-IsLinked r u role, update_member_role-IsLinked r u role)

  pub remove_member-IsLinked : (r u : ℕ) → IsLinked (remove_member r u db).1
  unfolding remove_member fits
  remove_member-IsLinked r u = record {
    members = All-keep _ _ db.members v.members;
    files = v.files;
  }

  pub leave_room-IsLinked : (r u : ℕ) → IsLinked (leave_room r u db).1
  unfolding leave_room fits
  leave_room-IsLinked r u = record { members = All-keep _ _ db.members v.members; files = v.files }

  with_name :
      (r : ℕ) (name : String)
      → IsLinked (record db { rooms = update (is_room r) (λ x. record x { name = name }) db.rooms })
  with_name r name =
      IsLinked-Grows db _
        (record {
          rooms = λ x h. any-update (is_room x) (is_room r) _ db.rooms (λ y. refl) ∙ h;
          users = λ x h. h;
          files = λ x h. h;
        })
        refl refl v

  pub rename_room-IsLinked : (r : ℕ) (name : String) → IsLinked (rename_room r name db).1
  unfolding rename_room
  rename_room-IsLinked r name = ground (arith, with_name r name)

  -- A room that is not deleted is found after the deletion.
  room_left :
      (r x : ℕ)
      → (x == r) ≡ false
      → any (is_room x) db.rooms ≡ true
      → any (is_room x) (keep (λ y. not (is_room r y)) db.rooms) ≡ true
  room_left r x e h = any-keep (is_room x) (is_room r) db.rooms h (never_both r x db.rooms e)

  pub delete_room-IsLinked : (r : ℕ) → IsLinked (delete_room r db).1
  unfolding delete_room
  delete_room-IsLinked r = record {
    members =
        All-keep-map _ _ _ db.members (λ m kept h. ground (arith, room_left r m.room_id)) v.members;
    files =
        cut-fits db (λ f. f.room_id == r) _ _ (λ f kept h. room_left r f.room_id kept h) v.files;
  }
