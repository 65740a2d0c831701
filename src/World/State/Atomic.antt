-- ===== src/World/State/Atomic.antt =====
-- Begin, Rollback and Commit of backend/internal/postgres/rooms.go.
use pairly.Prelude.{nat_eq, ◌≡◌, refl, ◌⊎◌, inl, inr, Bool, true, false, arith, Bool-cases}
use pairly.Outcome.{Outcome, row, no_rows, failed, hang}
use pairly.World.State.{World, Call, fault, called, transaction}

abbrev pub is_row : {A : Type 0} → Outcome A → Bool
is_row (row a) = true
is_row _ = false

pub is_row-cases :
    {A : Type 0} (o : Outcome A)
    → ((a : A) × (o ≡ row a)) ⊎ ((o ≡ no_rows) ⊎ ((o ≡ failed) ⊎ (o ≡ hang)))
is_row-cases (row a) = inl (a, refl)
is_row-cases no_rows = inr (inl refl)
is_row-cases failed = inr (inr (inl refl))
is_row-cases hang = inr (inr (inr refl))

-- A transaction that returns a row has done its whole body; one that returns an error, or never
-- returns, leaves the tables as they were, whichever call of it failed (BEGIN and COMMIT too).
pub transaction_atomic :
    {A : Type 0} (body : Call A) (w : World)
    → ((is_row (transaction body w).0 ≡ true)
        × ((transaction body w).0 ≡ (body (called w)).0)
        × ((transaction body w).1.db ≡ (body (called w)).1.db))
      ⊎ ((is_row (transaction body w).0 ≡ false) × ((transaction body w).1.db ≡ w.db))
unfolding transaction
transaction_atomic body w = elim (Bool-cases (fault w)) [
  | inl e ↦ inr (ground arith)
  | inr e ↦ elim (is_row-cases (body (called w)).0) [
    | inl (a, q) ↦ ground arith
    | inr q ↦ ground arith
  ]
]
