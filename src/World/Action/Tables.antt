-- ===== src/World/Action/Tables.antt =====
-- Predicates on the tables alone: a call of MongoDB, of Redis or of Kafka keeps every one of them.
use pairly.Prelude.{◌≡◌, refl, arith, subst, sym, Bool-cases, inl, inr}
use pairly.Outcome.{Outcome, row, no_rows, failed, hang}
use pairly.Postgres.Schema.{Db}
use pairly.Postgres.Statement.{Statement}
use pairly.World.Message.{Channel, Event}
use pairly.World.State.{World, Call, query, mongo, publish, fault, called, and_then, transaction}
use pairly.World.Action.{perform}
use pairly.World.Action.Keeps.{Keeps, KeepsCall, KeepsStep}

-- `I` holds of the tables of a world.
pub record OfDb (I : Db → Type 0) (w : World) : Type 0 where
  pub tables : I w.db

pub record KeepsDb {A : Type 0} (I : Db → Type 0) (s : Statement A) : Type 0 where
  pub at : (db : Db) → I db → I (s db).1

-- The operation on a collection leaves the tables.
pub record LeavesDb {A : Type 0} (op : World → A × World) : Type 0 where
  pub at : (w : World) → (op w).1.db ≡ w.db

module _ {I : Db → Type 0} where
  pub KeepsCall-query : {A : Type 0} (s : Statement A) → KeepsDb I s → KeepsCall (OfDb I) (query s)
  unfolding query
  KeepsCall-query s k = record {
    at = λ w h. elim (Bool-cases (fault w)) [
      | inl e ↦ rw (e, query) (record { tables = h.tables })
      | inr e ↦ rw (e, query) (record { tables = k.at w.db h.tables })
    ];
  }

  pub KeepsCall-mongo :
      {A : Type 0} (op : World → A × World) → LeavesDb op → KeepsCall (OfDb I) (mongo op)
  unfolding mongo
  KeepsCall-mongo op k = record {
    at = λ w h. elim (Bool-cases (fault w)) [
      | inl e ↦ rw (e, mongo) (record { tables = h.tables })
      | inr e ↦ rw (e, mongo) (record { tables = subst I (sym (k.at (called w))) h.tables })
    ];
  }

  pub KeepsStep-publish : (c : Channel) (e : Event) → KeepsStep (OfDb I) (publish c e)
  unfolding publish
  KeepsStep-publish c e = record {
    at = λ w h. elim (Bool-cases (fault w)) [
      | inl q ↦ rw (q, publish) (record { tables = h.tables })
      | inr q ↦ rw (q, publish) (record { tables = h.tables })
    ];
  }

-- A statement that only reads.
pub record ReadOnly {A : Type 0} (s : Statement A) : Type 0 where
  pub at : (db : Db) → (s db).1 ≡ db

pub ReadOnly-KeepsDb : {I : Db → Type 0} {A : Type 0} (s : Statement A) → ReadOnly s → KeepsDb I s
ReadOnly-KeepsDb {I} s k = record { at = λ db h. subst I (sym (k.at db)) h }

pub Keeps-perform :
    {I : Db → Type 0} {A : Type 0} (op : World → A × World)
    → LeavesDb op
    → Keeps (OfDb I) (perform op)
unfolding perform
Keeps-perform {I} op k = record { at = λ w h. record { tables = subst I (sym (k.at w)) h.tables } }

-- A chain of calls: the second may use that the first returned a row.
pub and_then-OfDb :
    {I : Db → Type 0} {A B : Type 0} (m : Call A) (f : A → Call B) (w : World)
    → OfDb I (m w).1
    → ((a : A) → (m w).0 ≡ row a → OfDb I (f a (m w).1).1)
    → OfDb I (and_then m f w).1
unfolding and_then
and_then-OfDb {I} {A} {B} m f w h next = go (m w).0 next
  where
    go :
        (o : Outcome A)
        → ((a : A) → o ≡ row a → OfDb I (f a (m w).1).1)
        → OfDb I (
            let t : Outcome B × World = elim o [
              | row a ↦ f a (m w).1
              | no_rows ↦ (failed, (m w).1)
              | failed ↦ (failed, (m w).1)
              | hang ↦ (hang, (m w).1)
            ] in
            t.1)
    go (row a) n = n a refl
    go no_rows n = h
    go failed n = h
    go hang n = h

pub query-OfDb :
    {I : Db → Type 0} {A : Type 0} (s : Statement A) (w : World)
    → I w.db
    → I (s w.db).1
    → OfDb I (query s w).1
unfolding query
query-OfDb s w before after = elim (Bool-cases (fault w)) [
  | inl e ↦ rw (e, query) (record { tables = before })
  | inr e ↦ rw (e, query) (record { tables = after })
]

-- What the body keeps, the transaction keeps: a rollback goes back to the tables of the start.
pub transaction-KeepsCall :
    {I : Db → Type 0} {A : Type 0} (body : Call A)
    → KeepsCall (OfDb I) body
    → KeepsCall (OfDb I) (transaction body)
unfolding transaction
transaction-KeepsCall {I} body k = record {
  at = λ w h.
      let started : OfDb I (called w) = record { tables = h.tables } in
      let done = (k.at (called w) started).tables in
      record { tables = ground (arith, done, h.tables) };
}

-- A query that returned a row ran its statement.
pub query-row :
    {A : Type 0} (s : Statement A) (w : World) (a : A)
    → (query s w).0 ≡ row a
    → ((s w.db).0 ≡ row a) × ((query s w).1.db ≡ (s w.db).1)
unfolding query
query-row s w a e = ground arith
