-- ===== src/Postgres/Statement.antt =====
-- A statement that the database runs: it answers, and leaves the tables as it makes them.
use pairly.Prelude.{Option, none, some}
use pairly.Outcome.{Outcome, row, no_rows}
use pairly.Postgres.Schema.{Db}

abbrev pub Statement : Type 0 → Type 0
Statement A = Db → Outcome A × Db

-- QueryRow(...).Scan: the row that was found, or pgx.ErrNoRows.
abbrev pub scan : {A : Type 0} → Option A → Outcome A
scan none = no_rows
scan (some a) = row a
