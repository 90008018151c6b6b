-- ===== src/Memory.antt =====
-- ai-service/app/services/memory/memory_service.py: long-term memory as records of the vector store.
-- The embedding service and the store are the record `MemoryBackend`; the identifiers that `uuid4` draws
-- are arguments.
pub mod Context
pub mod Turns
use mkc.Prelude.{
  ℕ, zero, suc, ◌+◌, ◌/◌, Bool, true, false, ◌&&◌, ◌||◌, not, Option, none, some, List, [], ◌∷◌,
  ◌++◌, map, length, ltb, keep_if, if◌then◌else◌, ◌≡◌,
}
use mkc.Prelude.Text.{Text, codes, nonempty, strip, join}
use mkc.Prelude.Order.{Float, sort_desc}
use mkc.Exceptions.{Exception, Result, ok, raise, ◌>>=◌}
use mkc.Models.{VectorSearchResult, VectorRecord, Filters}

-- `MemoryConfig`
pub record MemoryConfig (F : Type 0) : Type 0 where
  pub enabled : Bool
  pub top_k : ℕ
  pub score_threshold : F
  pub max_context_tokens : ℕ
  pub conversation_prefix : Text
  pub user_prefix : Text

-- `ChunkInput`
pub record ChunkInput : Type 0 where
  pub id : Text
  pub resource_id : Text
  pub text : Text

-- What the service calls; `embed` gives the vectors of the chunks.
pub record MemoryBackend (F V : Type 0) : Type 0 where
  pub embed_query : Text → Result (List F)
  pub search : List F → ℕ → Filters → Result (List (VectorSearchResult F V))
  pub embed : List ChunkInput → Result (List (List F))

-- `_estimate_tokens`
unfoldable pub estimate_tokens : Text → ℕ
estimate_tokens text = (length text + 1) / 2

unfoldable pub conversation_id : {F : Type 0} → MemoryConfig F → Text → Text
conversation_id cfg conversation = cfg.conversation_prefix ++ (codes ":" ++ conversation)

unfoldable pub user_key : {F : Type 0} → MemoryConfig F → Text → Text
user_key cfg user_id = cfg.user_prefix ++ (codes ":" ++ user_id)

-- The filters of the search in `load_context`
unfoldable pub memory_scope : {F : Type 0} → MemoryConfig F → Text → Text → Filters
memory_scope cfg user_id conversation = record {
  user_id = user_id;
  resource_ids = conversation_id cfg conversation ∷ user_key cfg user_id ∷ [];
}

-- The loop over the hits
unfoldable pub select_snippets : {F V : Type 0} → ℕ → ℕ → List (VectorSearchResult F V) → List Text
select_snippets budget total [] = []
select_snippets budget total (hit ∷ hits) =
    let text = strip hit.text in
    let next = if nonempty text then total + estimate_tokens text else total in
    let rest = select_snippets budget next hits in
    if nonempty text then if ltb budget next then [] else text ∷ rest else rest

-- The text that is returned
unfoldable pub render : List Text → Text
render snippets =
    if nonempty snippets
    then codes "=== 长期记忆（可能与当前问题相关）===\n"
      ++ (join (codes "\n") (map (λ snippet. codes "- " ++ snippet) snippets)
          ++ codes "\n====================================")
    else []

module _ {F V : Type 0} (fl : Float F) (cfg : MemoryConfig F) (backend : MemoryBackend F V) where
  -- The hits in question: none below the threshold, the best first.
  unfoldable pub relevant : List (VectorSearchResult F V) → List (VectorSearchResult F V)
  relevant results =
      sort_desc fl (λ r. r.score) (keep_if (λ r. fl.le cfg.score_threshold r.score) results)

  -- The body of the `try`
  unfoldable pub find_memories : Text → Text → Text → Result (List (VectorSearchResult F V))
  find_memories user_id conversation question = backend.embed_query question >>= λ vector.
      backend.search vector cfg.top_k (memory_scope cfg user_id conversation)

  -- `load_context`
  unfoldable pub load_context : Text → Text → Text → Text
  load_context user_id conversation question =
      let loaded : Text = elim (find_memories user_id conversation question) [
        | raise e ↦ []
        | ok results ↦ render (select_snippets cfg.max_context_tokens 0 (relevant results))
      ] in
      if cfg.enabled then loaded else []

  -- The text of a turn
  unfoldable pub turn_text : Text → Text → Text → Text
  turn_text question answer reasoning =
      codes "User: "
      ++ (question
          ++ (codes "\nAssistant: "
              ++ (answer
                  ++ (if nonempty (strip reasoning)
                      then codes "\nReasoning: " ++ strip reasoning
                      else []))))

  -- `save_turn`: the records that `upsert` is called with, if it is called. An error of `embed` or of
  -- `upsert` is logged.
  unfoldable pub save_turn :
      Text → Text → Text → Text → Text → Text → Text → Option (List (VectorRecord F Text))
  save_turn chunk_id record_id user_id conversation question answer reasoning =
      let resource_id = conversation_id cfg conversation in
      let text = turn_text question answer reasoning in
      let chunk : ChunkInput = record { id = chunk_id; resource_id = resource_id; text = text } in
      let saved : Option (List (VectorRecord F Text)) = elim (backend.embed (chunk ∷ [])) [
        | raise e ↦ none
        | ok vectors ↦ elim vectors [
          | [] ↦ none
          | vector ∷ _ ↦ some (
              record {
                id = record_id;
                resource_id = resource_id;
                user_id = user_id;
                text = text;
                vector = vector;
                metadata = (codes "memory_type", codes "turn") ∷ [];
              }
              ∷ [])
        ]
      ] in
      if cfg.enabled && nonempty (strip question) && nonempty (strip answer) then saved else none

  -- The chunks of `save_user_facts`; `ids` are drawn for the facts that are not blank.
  unfoldable pub fact_chunks : Text → List (Text × Text) → List ChunkInput
  fact_chunks user_id [] = []
  fact_chunks user_id ((id, fact) ∷ facts) =
      let rest = fact_chunks user_id facts in
      let chunk : ChunkInput = record {
        id = id;
        resource_id = user_key cfg user_id;
        text = strip fact;
      } in
      if nonempty (strip fact) then chunk ∷ rest else rest

  -- `zip(chunks, embeddings, strict=False)`
  unfoldable pub fact_records : Text → List ChunkInput → List (List F) → List (VectorRecord F Text)
  fact_records user_id (chunk ∷ chunks) (vector ∷ vectors) =
      record {
        id = chunk.id;
        resource_id = chunk.resource_id;
        user_id = user_id;
        text = chunk.text;
        vector = vector;
        metadata = (codes "memory_type", codes "user_fact") ∷ [];
      }
      ∷ fact_records user_id chunks vectors
  fact_records user_id _ _ = []

  -- `save_user_facts`, like `save_turn`
  unfoldable pub save_user_facts : Text → List (Text × Text) → Option (List (VectorRecord F Text))
  save_user_facts user_id facts =
      let chunks = fact_chunks user_id facts in
      let saved : Option (List (VectorRecord F Text)) = elim (backend.embed chunks) [
        | raise e ↦ none
        | ok vectors ↦ some (fact_records user_id chunks vectors)
      ] in
      if cfg.enabled && nonempty facts && nonempty chunks then saved else none
