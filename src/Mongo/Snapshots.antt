-- ===== src/Mongo/Snapshots.antt =====
-- backend/internal/mongo/snapshots.go: the collection `file_snapshots`.
pub mod RoundTrip
use pairly.Prelude.{
  nat_eq, ℕ, String, Bool, not, ◌&&◌, Option, none, some, List, [], ◌∷◌, ◌==◌, ltb, if◌then◌else◌,
  find, keep,
}

pub record FileSnapshot : Type 0 where
  pub file_id : ℕ
  pub room_id : ℕ
  pub version : ℕ
  pub text : String
  pub saved_at : ℕ

abbrev pub is_snapshot_of : ℕ → ℕ → FileSnapshot → Bool
is_snapshot_of file_id version s = s.file_id == file_id && s.version == version

-- UpdateOne with upsert on (file_id, version).
unfoldable pub save_snapshot : ℕ → ℕ → ℕ → ℕ → String → List FileSnapshot → List FileSnapshot
save_snapshot now file_id room_id version text [] =
    record { file_id = file_id; room_id = room_id; version = version; text = text; saved_at = now }
    ∷ []
save_snapshot now file_id room_id version text (s ∷ ss) =
    let later = s ∷ save_snapshot now file_id room_id version text ss in
    if is_snapshot_of file_id version s
    then record s { room_id = room_id; text = text; saved_at = now } ∷ ss
    else later

unfoldable pub get_snapshot : ℕ → ℕ → List FileSnapshot → Option FileSnapshot
get_snapshot file_id version ss = find (is_snapshot_of file_id version) ss

-- The first of the highest version among a file's snapshots: FindOne sorted by version, -1.
unfoldable pub get_latest_snapshot : ℕ → List FileSnapshot → Option FileSnapshot
get_latest_snapshot file_id [] = none
get_latest_snapshot file_id (s ∷ ss) =
    let rest = get_latest_snapshot file_id ss in
    if s.file_id == file_id
    then elim rest [ none ↦ some s | some t ↦ if ltb s.version t.version then some t else some s ]
    else rest

unfoldable pub delete_snapshots_by_file : ℕ → List FileSnapshot → List FileSnapshot
delete_snapshots_by_file file_id ss = keep (λ s. not (s.file_id == file_id)) ss

unfoldable pub delete_snapshots_by_room : ℕ → List FileSnapshot → List FileSnapshot
delete_snapshots_by_room room_id ss = keep (λ s. not (s.room_id == room_id)) ss
