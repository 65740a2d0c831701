-- ===== src/Mongo/Documents/RoundTrip.antt =====
-- SaveDocument and LoadDocument of backend/internal/mongo/documents.go, one after the other.
use pairly.Prelude.{
  nat_eq, ℕ, ◌+◌, ◌≡◌, ◌≢◌, refl, none, some, List, [], ◌∷◌, arith, ◌==◌, ==_iff, ==_refl, find,
  Bool-cases, inl, inr,
}
use pairly.Mongo.Documents.{Bytes, YjsDocument, load_document, set_state, save_document}

-- The version of a file's document, 0 where it has none.
abbrev pub version_of : ℕ → List YjsDocument → ℕ
version_of file docs = elim (load_document file docs) [ none ↦ 0 | some d ↦ d.version ]

-- After a save the document of the file is there, holds the state that was saved, and its version
-- is the one that the save returned: one more than before, or 1 for a new document.
pub load_document-save_document :
    (now file : ℕ) (state : Bytes) (docs : List YjsDocument)
    → (d : YjsDocument) × (load_document file (save_document now file state docs).1 ≡ some d)
      × (d.yjs_state ≡ state)
      × (d.version ≡ (save_document now file state docs).0)
      × (d.version ≡ version_of file docs + 1)
unfolding load_document save_document set_state find
load_document-save_document now file state [] = (
  record { file_id = file; room_id = none; yjs_state = state; version = 1; updated_at = now },
  ground (arith, ==_refl file),
  refl,
  refl,
  refl,
)
load_document-save_document now file state (d ∷ docs) =
    let (d', found, st, version, next) = load_document-save_document now file state docs in
    elim (Bool-cases (d.file_id == file)) [
      | inl e ↦ (
        record d { yjs_state = state; version = d.version + 1; updated_at = now },
        ground arith,
        refl,
        ground arith,
        ground arith,
      )
      | inr e ↦ (d', ground arith, st, ground arith, ground arith)
    ]

-- A save of one file's document leaves the document of every other file.
load_document-save_document_other :
    (now file other : ℕ) (state : Bytes) (docs : List YjsDocument)
    → other ≢ file
    → load_document other (save_document now file state docs).1 ≡ load_document other docs
unfolding load_document save_document set_state find
load_document-save_document_other now file other state [] h = ground (arith, ==_iff file other)
load_document-save_document_other now file other state (d ∷ docs) h = ground (
  arith,
  load_document-save_document_other now file other state docs h,
  ==_iff d.file_id other,
  ==_iff d.file_id file,
)
