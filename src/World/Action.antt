-- ===== src/World/Action.antt =====
-- A handler runs on the world until it writes its response; each early return writes one too.
pub mod Keeps
pub mod Tables
pub mod Inversion
use pairly.Prelude.{ℕ, ◌+◌, String, Bool, true, false, Option, none, some, List, if◌then◌else◌}
use pairly.Outcome.{Outcome, row, no_rows, failed, hang}
use pairly.Postgres.Statement.{Statement}
use pairly.World.Message.{Response, respond, Body, Channel, Event}
use pairly.World.State.{World, Task, Call, query, mongo, publish}

-- `stop r` is an early return that wrote `r`; `hangs` is a handler that waits for a statement
-- which does not end.
pub data Result (A : Type 0) : Type 0 where
  ok : A → Result A
  stop : Response → Result A
  hangs : Result A

abbrev pub Action : Type 0 → Type 0
Action A = World → Result A × World

module _ {A : Type 0} where
  unfoldable pub pure : A → Action A
  pure a w = (ok a, w)

  unfoldable pub halt : Response → Action A
  halt r w = (stop r, w)

  unfoldable pub gets : (World → A) → Action A
  gets f w = (ok (f w), w)

  -- Code that always returns a value.
  unfoldable pub perform : (World → A × World) → Action A
  perform op w = let (a, w') = op w in (ok a, w')

  abbrev pub or_stop : Response → Response → Outcome A → Result A
  or_stop missing broken (row a) = ok a
  or_stop missing broken no_rows = stop missing
  or_stop missing broken failed = stop broken
  or_stop missing broken hang = hangs

  -- a, err := call; if err == pgx.ErrNoRows { missing; return }; if err != nil { broken; return }
  unfoldable pub call_or : Response → Response → Call A → Action A
  call_or missing broken call w = let (o, w') = call w in (or_stop missing broken o, w')

  -- a, err := call; if err != nil { broken; return }
  unfoldable pub attempt : Response → Call A → Action A
  attempt broken call w = let (o, w') = call w in (or_stop broken broken o, w')

  abbrev pub or_zero : A → Outcome A → Result A
  or_zero zero_value (row a) = ok a
  or_zero zero_value hang = hangs
  or_zero zero_value _ = ok zero_value

  -- a, _ := call, or _ = call(&a): the zero value on an error
  unfoldable pub ignoring : A → Call A → Action A
  ignoring zero_value call w = let (o, w') = call w in (or_zero zero_value o, w')

unfoldable pub modify : (World → World) → Action (Unit {0})
modify f w = (ok tt, f w)

-- if test { response; return }
unfoldable pub stop_if : Bool → Response → Action (Unit {0})
stop_if test r w = (if test then stop r else ok tt, w)

module _ {A B : Type 0} where
  abbrev pub continue : Result A → (A → Action B) → Action B
  continue (ok a) f w = f a w
  continue (stop r) f w = (stop r, w)
  continue hangs f w = (hangs, w)

  infixl 5 ◌>>=◌ ◌>>◌
  unfoldable pub ◌>>=◌ : Action A → (A → Action B) → Action B
  ◌>>=◌ m f w = let (r, w') = m w in continue r f w'

  abbrev pub ◌>>◌ : Action A → Action B → Action B
  m >> k = m >>= λ _. k

-- The response that the client gets, unless the handler never answers.
abbrev pub answer : Result Response → Option Response
answer (ok r) = some r
answer (stop r) = some r
answer hangs = none
