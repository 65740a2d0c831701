-- ===== src/Rooms/Access/Refused.antt =====
-- A handler that writes an error and changes nothing, one rule for each step before that.
use pairly.Prelude.{
  ℕ, ◌+◌, ◌≤◌, ◌≡◌, ◌≢◌, refl, sym, ap, ◌∙◌, String, Bool, true, false, Option, none, some, arith,
  ltb, if◌then◌else◌,
}
use pairly.Outcome.{Outcome, row, no_rows, failed, hang}
use pairly.Postgres.Schema.{Role}
use pairly.Postgres.Rooms.{get_member_role, get_room_name}
use pairly.Postgres.Ownership.Roles.{role_in, get_member_role-role_in}
use pairly.World.Message.{Response, respond, Body}
use pairly.World.State.{World, query, called}
use pairly.World.Action.{
  Result, ok, stop, hangs, Action, continue, ignoring, stop_if, call_or, or_stop, ◌>>=◌,
}
use pairly.Rooms.HistoryHandler.{read_version}
use pairly.Rooms.Shared.{bind, member_role, fail}

-- `w` is `start`, but for the number of calls that were made.
abbrev pub SameBut : World → World → Type 0
SameBut start w = w ≡ record start { calls = w.calls }

-- The result is an early return with an error, and the world is as it was.
pub record Refused {A : Type 0} (start : World) (r : Result A × World) : Type 0 where
  pub response : Response
  pub stopped : r.0 ≡ stop response
  pub is_error : 400 ≤ response.status
  pub same : SameBut start r.1

-- A step that goes on, or returns early with an error.
abbrev pub IsRefusing : {A : Type 0} → Result A → Type 0
IsRefusing (ok a) = Unit
IsRefusing (stop r) = 400 ≤ r.status
IsRefusing hangs = ⊥

module _ {A B : Type 0} {start : World} where
  continue-Refused :
      (r : Result A) (f : A → Action B) (w : World)
      → IsRefusing r
      → SameBut start w
      → ((a : A) → r ≡ ok a → Refused start (f a w))
      → Refused start (continue r f w)
  continue-Refused (ok a) f w i s h = h a refl
  continue-Refused (stop r) f w i s h = record {
    response = r;
    stopped = refl;
    is_error = i;
    same = s;
  }
  continue-Refused hangs f w i s h = absurd i

  >>=-Refused :
      (m : Action A) (f : A → Action B) (w : World)
      → IsRefusing (m w).0
      → SameBut start (m w).1
      → ((a : A) → (m w).0 ≡ ok a → Refused start (f a (m w).1))
      → Refused start ((m >>= f) w)
  unfolding ◌>>=◌
  >>=-Refused m f w i s h = continue-Refused (m w).0 f (m w).1 i s h

bind-IsRefusing :
    {A : Type 0} (valid : A → Bool) (body : Option A) (w : World)
    → IsRefusing (bind valid body w).0 × ((bind valid body w).1 ≡ w)
unfolding bind
bind-IsRefusing valid none w = (omega arith, refl)
bind-IsRefusing valid (some a) w = (go (valid a), refl)
  where
    go : (b : Bool) → IsRefusing (if b then ok a else stop (respond 400 Body.binding_error))
    go true = tt
    go false = omega arith

or_stop-IsRefusing :
    {A : Type 0} (a b : Response) (o : Outcome A)
    → o ≢ hang
    → 400 ≤ a.status
    → 400 ≤ b.status
    → IsRefusing (or_stop a b o)
or_stop-IsRefusing a b (row x) n h k = tt
or_stop-IsRefusing a b no_rows n h k = h
or_stop-IsRefusing a b failed n h k = k
or_stop-IsRefusing a b hang n h k = n refl

role_query_ends : (room user : ℕ) (w : World) → (query (get_member_role room user) w).0 ≢ hang
unfolding query
role_query_ends room user w = ground (arith, get_member_role-role_in w.db room user)

member_role-IsRefusing :
    (s : String) (room user : ℕ) (w : World) → IsRefusing (member_role s room user w).0
unfolding member_role call_or
member_role-IsRefusing s room user w =
    or_stop-IsRefusing (fail 403 s) (fail 500 "database error") _ (role_query_ends room user w)
      (omega arith) (omega arith)

pub member_role_same :
    (s : String) (room user : ℕ) (w : World) → (member_role s room user w).1 ≡ called w
unfolding member_role call_or query get_member_role
member_role_same s room user w = ground arith

pub member_role_found :
    (s : String) (room user : ℕ) (w : World) (r : Role)
    → (member_role s room user w).0 ≡ ok r
    → role_in w.db room user ≡ some r
unfolding member_role call_or query
member_role_found s room user w r e = ground (arith, get_member_role-role_in w.db room user)

room_name-IsRefusing :
    (room : ℕ) (w : World)
    → IsRefusing (ignoring "" (query (get_room_name room)) w).0
      × ((ignoring "" (query (get_room_name room)) w).1 ≡ called w)
unfolding ignoring query get_room_name
room_name-IsRefusing room w = (ground arith, ground arith)

read_version-IsRefusing :
    (v : Option ℕ) (w : World) → IsRefusing (read_version v w).0 × ((read_version v w).1 ≡ w)
unfolding read_version
read_version-IsRefusing none w = (omega arith, refl)
read_version-IsRefusing (some v) w = (go (ltb v 1), refl)
  where
    go : (b : Bool) → IsRefusing (if b then stop (fail 400 "invalid version") else ok v)
    go true = omega arith
    go false = tt

module _ {A : Type 0} {start : World} where
  -- The version in the path.
  pub read_version-Refused :
      (v : Option ℕ) (f : ℕ → Action A) (w : World)
      → SameBut start w
      → ((n : ℕ) → Refused start (f n w))
      → Refused start ((read_version v >>= f) w)
  read_version-Refused v f w s h =
      let (i, e) = read_version-IsRefusing v w in
      >>=-Refused (read_version v) f w i (rw e s) (λ n _. rw e (h n))

  -- The query of the room's name.
  pub room_name-Refused :
      (room : ℕ) (f : String → Action A) (w : World)
      → SameBut start w
      → ((name : String) → Refused start (f name (called w)))
      → Refused start ((ignoring "" (query (get_room_name room)) >>= f) w)
  room_name-Refused room f w s h =
      let (i, e) = room_name-IsRefusing room w in
      >>=-Refused _ f w i (rw e (ap (λ (v : World). record v { calls = w.calls + 1 }) s))
        (λ name _. rw e (h name))

  -- The binding of the request's body.
  pub bind-Refused :
      {R : Type 0} (valid : R → Bool) (body : Option R) (f : R → Action A) (w : World)
      → SameBut start w
      → ((req : R) → Refused start (f req w))
      → Refused start ((bind valid body >>= f) w)
  bind-Refused valid body f w s h =
      let (i, e) = bind-IsRefusing valid body w in
      >>=-Refused (bind valid body) f w i (rw e s) (λ req _. rw e (h req))

  -- The role of the caller: the rest of the handler is entered with the role that was found.
  pub member_role-Refused :
      (reason : String) (room user : ℕ) (f : Role → Action A) (w : World)
      → SameBut start w
      → ((r : Role) → role_in start.db room user ≡ some r → Refused start (f r (called w)))
      → Refused start ((member_role reason room user >>= f) w)
  member_role-Refused reason room user f w s h =
      let e = member_role_same reason room user w in
      >>=-Refused (member_role reason room user) f w (member_role-IsRefusing reason room user w)
        (rw e (ap (λ (v : World). record v { calls = w.calls + 1 }) s))
        (λ r found. rw e (
          h r (
            ap (λ (v : World). role_in v.db room user) (sym s)
            ∙ member_role_found reason room user w r found)))

  -- A guard that lets nothing pass.
  pub stop_if-Refused :
      (test : Bool) (r : Response) (f : Unit {0} → Action A) (w : World)
      → SameBut start w
      → 400 ≤ r.status
      → (test ≡ false → Refused start (f tt w))
      → Refused start ((stop_if test r >>= f) w)
  unfolding stop_if
  stop_if-Refused test r f w s i h =
      >>=-Refused (stop_if test r) f w (go test) s (λ u e. h (ground arith))
    where
      go : (b : Bool) → IsRefusing {A = Unit {0}} (if b then stop r else ok tt)
      go true = i
      go false = tt

  -- A guard on the role, right behind its query.
  pub guarded-Refused :
      (reason : String) (room user : ℕ) (test : Role → Bool) (r : Response) (rest : Role → Action A)
      (w : World)
      → SameBut start w
      → 400 ≤ r.status
      → ((role : Role) → role_in start.db room user ≡ some role → test role ≡ true)
      → Refused start
          ((member_role reason room user >>= λ role. stop_if (test role) r >>= λ _. rest role) w)
  guarded-Refused reason room user test r rest w s i denied =
      member_role-Refused reason room user _ w s λ role found.
        stop_if-Refused (test role) r (λ _. rest role) (called w)
          (ap (λ (v : World). record v { calls = w.calls + 1 }) s) i
          (λ e. absurd (not_both (denied role found) e))
    where
      not_both : {b : Bool} → b ≡ true → b ≡ false → ⊥
      not_both p q = cc

  -- No guard but the membership.
  pub reader-Refused :
      (reason : String) (room user : ℕ) (rest : Role → Action A) (w : World)
      → SameBut start w
      → role_in start.db room user ≡ none
      → Refused start ((member_role reason room user >>= rest) w)
  reader-Refused reason room user rest w s none_found =
      member_role-Refused reason room user rest w s λ role found. absurd (cc)
