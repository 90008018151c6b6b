-- ===== src/Models.antt =====
-- ai-service/app/models: the records that pass between the services. `F` stands for the floats and
-- `V` for the values of a metadata dictionary.
use mkc.Prelude.{ℕ, Option, List}
use mkc.Prelude.Text.{Text}
use mkc.Chunking.{Metadata}

-- ai-service/app/models/vector_record.py
pub record VectorSearchResult (F V : Type 0) : Type 0 where
  pub id : Text
  pub resource_id : Text
  pub user_id : Text
  pub text : Text
  pub metadata : Metadata V
  pub score : F
  pub created_at : ℕ

pub record VectorRecord (F V : Type 0) : Type 0 where
  pub id : Text
  pub resource_id : Text
  pub user_id : Text
  pub text : Text
  pub vector : List F
  pub metadata : Metadata V

-- The filters of a search: the user and the resources in scope.
pub record Filters : Type 0 where
  pub user_id : Text
  pub resource_ids : List Text

-- ai-service/app/models/retrieval.py
pub record RetrievalRequest (F : Type 0) : Type 0 where
  pub question : Text
  pub user_id : Text
  pub resource_ids : List Text
  pub top_k : ℕ
  pub score_threshold : Option F
  pub max_context_tokens : Option ℕ

pub record RetrievalChunk (F V : Type 0) : Type 0 where
  pub chunk_id : Text
  pub resource_id : Text
  pub text : Text
  pub score : F
  pub metadata : Metadata V

pub record RetrievalResult (F V : Type 0) : Type 0 where
  pub chunks : List (RetrievalChunk F V)
  pub prompt : Text
  pub context_token_count : ℕ
