-- ===== src/World/Env.antt =====
-- What the handlers take from outside the repository: y-crdt, the e-mail test of the validator,
-- the Unicode case table behind strings.ToLower, the collation of the database and time.Format.
use pairly.Prelude.{ℕ, String, Bool}
use pairly.Mongo.Documents.{Bytes}

pub record Env : Type 1 where
  -- ycrdt.Doc, ycrdt.NewDoc, ycrdt.ApplyUpdate and GetText("content").ToString
  pub Doc : Type 0
  pub new_doc : Doc
  pub apply_update : Doc → Bytes → Doc
  pub get_text : Doc → String
  pub is_email : String → Bool
  pub to_lower : String → String
  pub name_le : String → String → Bool
  pub format_time : ℕ → String
