-- ===== src/Mongo/Documents.antt =====
-- backend/internal/mongo/documents.go: the collection `documents`. A Yjs state is a list of bytes.
pub mod RoundTrip
use pairly.Prelude.{
  nat_eq, ℕ, ◌+◌, ◌≡◌, Bool, not, Option, none, some, List, [], ◌∷◌, ◌++◌, ◌==◌, if◌then◌else◌,
  find, update, keep,
}

abbrev pub Bytes : Type 0
Bytes = List ℕ

-- `room_id` is absent from a document that SaveDocument's upsert made.
pub record YjsDocument : Type 0 where
  pub file_id : ℕ
  pub room_id : Option ℕ
  pub yjs_state : Bytes
  pub version : ℕ
  pub updated_at : ℕ

abbrev pub has_file_id : ℕ → YjsDocument → Bool
has_file_id file_id d = d.file_id == file_id

abbrev pub has_room_id : ℕ → YjsDocument → Bool
has_room_id room_id d = elim d.room_id [ none ↦ Bool.false | some r ↦ r == room_id ]

-- InsertOne.
unfoldable pub create_document : ℕ → ℕ → ℕ → List YjsDocument → List YjsDocument
create_document now file_id room_id docs =
    docs
    ++ record {
      file_id = file_id;
      room_id = some room_id;
      yjs_state = [];
      version = 0;
      updated_at = now;
    }
      ∷ []

-- FindOne; mongo.ErrNoDocuments becomes nil, nil.
unfoldable pub load_document : ℕ → List YjsDocument → Option YjsDocument
load_document file_id docs = find (has_file_id file_id) docs

-- An update of one document is of the first that the filter finds.
unfoldable pub set_state : ℕ → ℕ → Bytes → List YjsDocument → List YjsDocument
set_state now file_id state [] =
    record { file_id = file_id; room_id = none; yjs_state = state; version = 1; updated_at = now }
    ∷ []
set_state now file_id state (d ∷ ds) =
    let later = d ∷ set_state now file_id state ds in
    if has_file_id file_id d
    then record d { yjs_state = state; version = d.version + 1; updated_at = now } ∷ ds
    else later

-- FindOneAndUpdate with upsert, $set and $inc; returns the version after the increment.
unfoldable pub save_document : ℕ → ℕ → Bytes → List YjsDocument → ℕ × List YjsDocument
unfolding set_state
save_document now file_id state docs = (
  elim (find (has_file_id file_id) docs) [ none ↦ 1 | some d ↦ d.version + 1 ],
  set_state now file_id state docs,
)

-- DeleteOne removes the first that the filter finds.
unfoldable pub delete_document : ℕ → List YjsDocument → List YjsDocument
delete_document file_id [] = []
delete_document file_id (d ∷ ds) =
    let later = d ∷ delete_document file_id ds in if has_file_id file_id d then ds else later

unfoldable pub delete_documents_by_room : ℕ → List YjsDocument → List YjsDocument
delete_documents_by_room room_id docs = keep (λ d. not (has_room_id room_id d)) docs
