-- ===== src/Mongo/Executions.antt =====
-- backend/internal/mongo/executions.go: the collection `executions`, one document for a file.
use pairly.Mongo.Documents.{Bytes}
use pairly.Prelude.{nat_eq, ℕ, String, Bool, Option, List, [], ◌∷◌, ◌==◌, if◌then◌else◌, find, keep}

-- An exit code is -1 or a status of the container: `none` stands for -1. Go's
-- strings are bytes.
pub record ExecutionResult : Type 0 where
  pub execution_id : String
  pub room_id : ℕ
  pub file_id : ℕ
  pub output : Bytes
  pub exit_code : Option ℕ
  pub duration_ms : ℕ
  pub truncated : Bool
  pub executed_at : ℕ

-- UpdateOne with upsert on file_id: $set writes every field.
unfoldable pub save_execution : ExecutionResult → List ExecutionResult → List ExecutionResult
save_execution r [] = r ∷ []
save_execution r (e ∷ es) =
    let later = e ∷ save_execution r es in if e.file_id == r.file_id then r ∷ es else later

unfoldable pub get_executions_for_room : ℕ → List ExecutionResult → List ExecutionResult
get_executions_for_room room_id es = keep (λ e. e.room_id == room_id) es

unfoldable pub get_last_execution : ℕ → List ExecutionResult → Option ExecutionResult
get_last_execution file_id es = find (λ e. e.file_id == file_id) es
