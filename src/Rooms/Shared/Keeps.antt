-- ===== src/Rooms/Shared/Keeps.antt =====
-- What the shared parts of the handlers keep: every predicate on the tables.
use pairly.Prelude.{
  ◌≡◌, true, inl, inr, Bool-cases, ℕ, String, Bool, Option, none, some, List, [], ◌∷◌,
}
use pairly.Outcome.{Outcome, row}
use pairly.Postgres.Schema.{Db, File}
use pairly.Postgres.Rooms.{get_room_member_ids}
use pairly.World.Env.{Env}
use pairly.World.Message.{Event}
use pairly.World.State.{World, query}
use pairly.World.Action.{Action, ◌>>=◌}
use pairly.World.Action.Keeps.{Keeps, KeepsStep, Keeps-call_or}
use pairly.World.Action.Tables.{OfDb, KeepsCall-query, KeepsStep-publish, ReadOnly-KeepsDb}
use pairly.Rooms.Shared.{
  bind, member_role, publish_permission, publish_files, publish_notification, notify_all,
  notify_listed, publish_listed, publish_notification_to_members,
}
use pairly.Rooms.Shared.Reads.{
  get_member_role-ReadOnly, get_files_for_room-ReadOnly, get_room_member_ids-ReadOnly,
}

pub Keeps-request :
    {A : Type 0} {P : World → Type 0} (valid : A → Bool) (body : Option A)
    → Keeps P (bind valid body)
unfolding bind
Keeps-request valid none = record { at = λ w h. h }
Keeps-request valid (some a) = record { at = λ w h. h }

-- A body that the tags let through.
pub Keeps-valid_request :
    {A B : Type 0} {P : World → Type 0} (valid : A → Bool) (body : Option A) (f : A → Action B)
    → ((a : A) → valid a ≡ true → Keeps P (f a))
    → Keeps P (bind valid body >>= f)
unfolding bind ◌>>=◌
Keeps-valid_request valid none f k = record { at = λ w h. h }
Keeps-valid_request valid (some a) f k = record {
  at = λ w h. elim (Bool-cases (valid a)) [ inl e ↦ rw e ((k a e).at w h) | inr e ↦ rw e h ];
}

module _ {I : Db → Type 0} where
  pub Keeps-member_role : (s : String) (r u : ℕ) → Keeps (OfDb I) (member_role s r u)
  unfolding member_role
  Keeps-member_role s r u =
      Keeps-call_or _ _ _ (KeepsCall-query _ (ReadOnly-KeepsDb _ (get_member_role-ReadOnly r u)))

  pub KeepsStep-publish_permission :
      (r : ℕ) (e : Event) → KeepsStep (OfDb I) (publish_permission r e)
  unfolding publish_permission
  KeepsStep-publish_permission r e = KeepsStep-publish _ e

  pub KeepsStep-publish_notification :
      (u : ℕ) (e : Event) → KeepsStep (OfDb I) (publish_notification u e)
  unfolding publish_notification
  KeepsStep-publish_notification u e = KeepsStep-publish _ e

  notify_all_keeps : (ids : List ℕ) (e : Event) (w : World) → OfDb I w → OfDb I (notify_all ids e w)
  unfolding notify_all
  notify_all_keeps [] e w h = h
  notify_all_keeps (id ∷ ids) e w h =
      notify_all_keeps ids e (publish_notification id e w)
        ((KeepsStep-publish_notification id e).at w h)

  notify_listed_keeps :
      (o : Outcome (List ℕ)) (e : Event) (w : World) → OfDb I w → OfDb I (notify_listed o e w)
  unfolding notify_listed
  notify_listed_keeps (row ids) e w h = notify_all_keeps ids e w h
  notify_listed_keeps _ e w h = h

  pub KeepsStep-publish_notification_to_members :
      (r : ℕ) (e : Event) → KeepsStep (OfDb I) (publish_notification_to_members r e)
  unfolding publish_notification_to_members
  KeepsStep-publish_notification_to_members r e = record {
    at = λ w h.
        notify_listed_keeps (query (get_room_member_ids r) w).0 e _
          ((KeepsCall-query _ (ReadOnly-KeepsDb _ (get_room_member_ids-ReadOnly r))).at w h);
  }

  publish_listed_keeps :
      (env : Env) (r : ℕ) (o : Outcome (List File)) (w : World)
      → OfDb I w
      → OfDb I (publish_listed env r o w).1
  unfolding publish_listed
  publish_listed_keeps env r (row fs) w h = (KeepsStep-publish _ _).at w h
  publish_listed_keeps env r _ w h = h

  pub Keeps-publish_files : (env : Env) (r : ℕ) → Keeps (OfDb I) (publish_files env r)
  unfolding publish_files
  Keeps-publish_files env r = record {
    at = λ w h. publish_listed_keeps env r _ _ (
        (KeepsCall-query _ (ReadOnly-KeepsDb _ (get_files_for_room-ReadOnly env.name_le r))).at w
          h);
  }

pub ruleset shared_rules = (
  Keeps-request, Keeps-member_role, KeepsStep-publish_permission, KeepsStep-publish_notification,
  KeepsStep-publish_notification_to_members, Keeps-publish_files,
)
