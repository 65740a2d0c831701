-- ===== src/World/State.antt =====
-- The state behind the handlers: the tables, the collections, what was published and written, the
-- goroutines that were started, and the faults of the infrastructure.
pub mod Atomic
use pairly.Prelude.{
  ℕ, ◌+◌, String, Bool, true, false, Option, none, some, List, [], ◌∷◌, ◌++◌, if◌then◌else◌,
}
use pairly.Outcome.{Outcome, row, no_rows, failed, hang}
use pairly.Postgres.Schema.{Db}
use pairly.Postgres.Statement.{Statement}
use pairly.Mongo.Documents.{Bytes, YjsDocument}
use pairly.Mongo.Snapshots.{FileSnapshot}
use pairly.Mongo.Executions.{ExecutionResult}
use pairly.World.Message.{Channel, Event, Published, EditEvent}

-- A goroutine of SaveState or of GetHistoryAtVersion that has not run yet.
pub data Task : Type 0 where
  publish_edit : EditEvent → Task
  snapshot : ℕ → ℕ → ℕ → String → Task

-- kafka.DeadLetterEvent, without the text of the error and the time.
pub record DeadLetter : Type 0 where
  pub original_topic : String
  pub payload : Bytes

-- `faults n` says whether the n-th call of a database or a broker fails; a call that fails has
-- no effect. `edit_events` is partition 0 of the topic, where
-- `none` is a message that is no JSON of an EditEvent.
pub record World : Type 0 where
  pub db : Db
  pub documents : List YjsDocument
  pub snapshots : List FileSnapshot
  pub executions : List ExecutionResult
  pub published : List Published
  pub edit_events : List (Option EditEvent)
  pub dead_letters : List DeadLetter
  pub tasks : List Task
  pub faults : ℕ → Bool
  pub calls : ℕ

abbrev pub fault : World → Bool
fault w = w.faults w.calls

abbrev pub called : World → World
called w = record w { calls = w.calls + 1 }

-- A function that calls a database: what it returns, and the state after it.
abbrev pub Call : Type 0 → Type 0
Call A = World → Outcome A × World

unfoldable pub query : {A : Type 0} → Statement A → Call A
query statement w =
    if fault w
    then (failed, called w)
    else let (o, db) = statement w.db in (o, record w { db = db; calls = w.calls + 1 })

-- A call of MongoDB: a result and the new state, unless the call fails.
unfoldable pub mongo : {A : Type 0} → (World → A × World) → Call A
mongo op w = if fault w then (failed, called w) else let (a, w') = op (called w) in (row a, w')

-- h.rdb.Publish, whose error the handlers drop.
unfoldable pub publish : Channel → Event → World → World
publish channel event w = if fault w then called w else record w {
  published = w.published ++ record { channel = channel; event = event } ∷ [];
  calls = w.calls + 1;
}

-- One call after another; an error ends the chain.
unfoldable pub and_then : {A B : Type 0} → Call A → (A → Call B) → Call B
and_then m f w =
    let (o, w') = m w in
    elim o [ row a ↦ f a w' | no_rows ↦ (failed, w') | failed ↦ (failed, w') | hang ↦ (hang, w') ]

-- db.Begin, the body on the transaction, tx.Commit; on an error the deferred Rollback undoes the
-- body.
unfoldable pub transaction : {A : Type 0} → Call A → Call A
transaction body w =
    if fault w
    then (failed, called w)
    else let (o, w') = body (called w) in
      elim o [
        | row a ↦
            if fault w'
            then (failed, record w' { db = w.db; calls = w'.calls + 1 })
            else (row a, called w')
        | no_rows ↦ (failed, record w' { db = w.db })
        | failed ↦ (failed, record w' { db = w.db })
        | hang ↦ (hang, record w' { db = w.db })
      ]
