-- ===== src/Rooms/Links.antt =====
-- The invariant of Postgres.Links along the handlers of backend/internal/rooms.
use pairly.Prelude.{ℕ, String, inl, inr, Option-cases}
use pairly.Postgres.Schema.{Role, owner}
use pairly.Postgres.Statement.{Statement}
use pairly.Postgres.Rooms.{role_of, with_role, insert_room, insert_member}
use pairly.Postgres.Files.{insert_default_file}
use pairly.Postgres.Links.{IsLinked}
use pairly.Postgres.Links.Members.{
  insert_room-IsLinked, insert_member-IsLinked, add_member-IsLinked, remove_member-IsLinked,
  leave_room-IsLinked, update_member_role-IsLinked, rename_room-IsLinked, delete_room-IsLinked,
}
use pairly.Postgres.Links.Files.{
  insert_default_file-IsLinked, create_file-IsLinked, update_file-IsLinked, update_folder-IsLinked,
  toggle_file-IsLinked, toggle_folder-IsLinked, permanent_delete_file-IsLinked,
}
use pairly.World.State.{query}
use pairly.World.Action.Keeps.{KeepsCall}
use pairly.World.Action.Tables.{OfDb, KeepsDb, transaction-KeepsCall, and_then-OfDb, query-OfDb}
use pairly.Rooms.RoomsHandler.{create_room_call}
use pairly.Rooms.Invariants.{IsKept}

create_room_call-IsLinked :
    (name : String) (u : ℕ) → KeepsCall (OfDb IsLinked) (create_room_call name u)
unfolding create_room_call
create_room_call-IsLinked name u = transaction-KeepsCall _ (record {
  at = λ w h.
      let one =
        query-OfDb (insert_room name u) w h.tables (insert_room-IsLinked w.db h.tables name u) in
      and_then-OfDb _ _ w one λ r _.
        let v = (query (insert_room name u) w).1 in
        let two =
          query-OfDb (insert_member r.id u owner) v one.tables
            (insert_member-IsLinked v.db one.tables r.id u owner) in
        and_then-OfDb _ _ v two λ _ _.
          let x = (query (insert_member r.id u owner) v).1 in
          let three =
            query-OfDb (insert_default_file r.id u) x two.tables
              (insert_default_file-IsLinked x.db two.tables r.id u) in
          and_then-OfDb _ _ x three (λ _ _. three);
})

with_role-KeepsDb :
    (text : String) (statement : Role → Statement (Unit {0}))
    → ((role : Role) → KeepsDb IsLinked (statement role))
    → KeepsDb IsLinked (with_role text statement)
unfolding with_role
with_role-KeepsDb text statement k = record {
  at = λ db v. elim (Option-cases (role_of text)) [
    | inl e ↦ rw (e, with_role) v
    | inr (role, e) ↦ rw (e, with_role) ((k role).at db v)
  ];
}

-- The links hold along every handler.
pub IsLinked-IsKept : IsKept IsLinked
IsLinked-IsKept = record {
  by_create_room = create_room_call-IsLinked;
  by_add_member = λ r u role ok.
      with_role-KeepsDb role _
        (λ known. record { at = λ db v. add_member-IsLinked db v r u known });
  by_remove_member = λ r u. record { at = λ db v. remove_member-IsLinked db v r u };
  by_leave_room = λ r u. record { at = λ db v. leave_room-IsLinked db v r u };
  by_update_member_role = λ r u role ok.
      with_role-KeepsDb role _
        (λ known. record { at = λ db v. update_member_role-IsLinked db v r u known });
  by_rename_room = λ r name. record { at = λ db v. rename_room-IsLinked db v r name };
  by_delete_room = λ r. record { at = λ db v. delete_room-IsLinked db v r };
  by_create_file = λ p. record { at = λ db v. create_file-IsLinked db v p };
  by_update_file = λ p. record { at = λ db v. update_file-IsLinked db v p };
  by_update_folder = λ p. record { at = λ db v. update_folder-IsLinked db v p };
  by_toggle_file = λ f. record { at = λ db v. toggle_file-IsLinked db v f };
  by_toggle_folder = λ f. record { at = λ db v. toggle_folder-IsLinked db v f };
  by_permanent_delete_file = λ f. record { at = λ db v. permanent_delete_file-IsLinked db v f };
}
