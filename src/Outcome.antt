-- ===== src/Outcome.antt =====
-- What a Go function that returns a value and an error hands back.
use pairly.Prelude.{◌≡◌}

-- `no_rows` is pgx.ErrNoRows itself, `failed` any other error, and `hang` a statement that the
-- database never finishes.
pub data Outcome {ℓ} (A : Type ℓ) : Type ℓ where
  row : A → Outcome A
  no_rows failed hang : Outcome A

-- fmt.Errorf("...: %w", err): the caller's `err == pgx.ErrNoRows` no longer holds.
unfoldable pub wrap {ℓ} : {A : Type ℓ} → Outcome A → Outcome A
wrap (row a) = row a
wrap no_rows = failed
wrap failed = failed
wrap hang = hang

pub row-injective {ℓ} : {A : Type ℓ} {a b : A} → row a ≡ row b → a ≡ b
row-injective e = cc
