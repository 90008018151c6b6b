-- ===== src/Retrieval.antt =====
-- ai-service/app/services/retrieval/retrieval_service.py: embedding, vector search, filtering,
-- authorization and the context budget. The embedding service, the vector store and the prompt
-- template are the record `Backend`.
pub mod Dedup
pub mod Budget
pub mod Hits
pub mod Scope
pub mod Ranks
use mkc.Prelude.{
  ℕ, zero, suc, ◌+◌, ◌*◌, min, max, Bool, true, false, ◌&&◌, not, Option, none, some, List, [], ◌∷◌,
  ◌++◌, map, length, take, keep_if, ltb, leb, nat_eqb, if◌then◌else◌, ◌≡◌,
}
use mkc.Prelude.Text.{Text, codes, text_eqb, text_in, is_space, nonempty}
use mkc.Prelude.Order.{Float, sort_desc}
use mkc.Exceptions.{
  Exception, Result, ok, raise, ◌>>=◌, is_api, retrieval_forbidden, retrieval_unavailable,
}
use mkc.Chunking.{Estimator, count}
use mkc.Models.{VectorSearchResult, Filters, RetrievalRequest, RetrievalChunk, RetrievalResult}

-- `RetrievalConfig`
pub record RetrievalConfig (F : Type 0) : Type 0 where
  pub default_top_k : ℕ
  pub score_threshold : F
  pub max_context_tokens : ℕ

-- What the service calls: `embed_query`, `search`, the prompt template, and SHA-1 in hexadecimal.
pub record Backend (F V : Type 0) : Type 0 where
  pub embed_query : Text → Result (List F)
  pub search : List F → ℕ → Filters → Result (List (VectorSearchResult F V))
  pub build_prompt : List (RetrievalChunk F V) → Text → Result Text
  pub sha1 : Text → Text

-- `dict.fromkeys(ids)`: each once, in order of the first occurrence. `seen` holds those before.
unfoldable pub from_keys : List Text → List Text → List Text
from_keys seen [] = []
from_keys seen (x ∷ xs) =
    let old = from_keys seen xs in
    let new = x ∷ from_keys (x ∷ seen) xs in if text_in x seen then old else new

-- `len(set(resource_ids)) > 1`
unfoldable pub several : List Text → Bool
unfolding from_keys
several resource_ids = ltb 1 (length (from_keys [] resource_ids))

-- `_candidate_top_k`
unfoldable pub candidate_top_k : ℕ → List Text → ℕ
candidate_top_k top_k resource_ids =
    if several resource_ids
    then min (max (top_k * 8) (top_k + length (from_keys [] resource_ids))) 100
    else top_k

-- The `except` clauses around the search.
unfoldable pub hide_failure {ℓ} : {A : Type ℓ} → Result A → Result A
hide_failure (ok a) = ok a
hide_failure (raise e) = if is_api e then raise e else raise retrieval_unavailable

module _ {F V : Type 0} (backend : Backend F V) where
  -- `_chunk_fingerprint`
  unfoldable pub chunk_fingerprint : Text → Text
  chunk_fingerprint text =
      let normalized = keep_if (λ c. not (is_space c)) text in
      if nonempty normalized then backend.sha1 (take 1200 normalized) else []

  -- `fingerprint or f"{chunk.resource_id}:{chunk.id}"`
  unfoldable pub dedup_key : VectorSearchResult F V → Text
  dedup_key chunk =
      let fingerprint = chunk_fingerprint chunk.text in
      if nonempty fingerprint then fingerprint else chunk.resource_id ++ (codes ":" ++ chunk.id)

  -- `_deduplicate_similar_chunks`
  unfoldable pub deduplicate :
      List Text → List (VectorSearchResult F V) → List (VectorSearchResult F V)
  deduplicate seen [] = []
  deduplicate seen (chunk ∷ chunks) =
      let key = dedup_key chunk in
      let old = deduplicate seen chunks in
      let new = chunk ∷ deduplicate (key ∷ seen) chunks in if text_in key seen then old else new

  -- The loop of `_search_per_resource_candidates`
  unfoldable pub search_per_resource :
      List F → Text → List Text → Result (List (VectorSearchResult F V))
  search_per_resource query_vector user_id [] = ok []
  search_per_resource query_vector user_id (resource_id ∷ resource_ids) = do
    found ←
        backend.search query_vector 1
          (record { user_id = user_id; resource_ids = resource_id ∷ [] })
    rest ← search_per_resource query_vector user_id resource_ids
    ok (found ++ rest)

  -- The body of the `try`
  unfoldable pub search_all :
      List F → ℕ → RetrievalRequest F → Result (List (VectorSearchResult F V))
  search_all query_vector top_k request = do
    found ←
        backend.search query_vector top_k
          (record { user_id = request.user_id; resource_ids = request.resource_ids })
    if several request.resource_ids
        then (do
          more ←
              search_per_resource query_vector request.user_id (from_keys [] request.resource_ids)
          ok (found ++ more))
        else ok found

-- `chunk.user_id != user_id or chunk.resource_id not in allowed_resources`, negated
unfoldable pub in_scope : {F V : Type 0} → Text → List Text → VectorSearchResult F V → Bool
in_scope user_id resource_ids chunk =
    text_eqb chunk.user_id user_id && text_in chunk.resource_id resource_ids

-- `_validate_authorization`: the chunks, if none is out of scope.
unfoldable pub validate_authorization :
    {F V : Type 0}
    → Text
    → List Text
    → List (VectorSearchResult F V)
    → Result (List (VectorSearchResult F V))
validate_authorization user_id resource_ids [] = ok []
validate_authorization user_id resource_ids (chunk ∷ chunks) =
    let rest =
      validate_authorization user_id resource_ids chunks >>= λ checked. ok (chunk ∷ checked) in
    if in_scope user_id resource_ids chunk then rest else raise retrieval_forbidden

unfoldable pub to_retrieval_chunk : {F V : Type 0} → VectorSearchResult F V → RetrievalChunk F V
to_retrieval_chunk chunk = record {
  chunk_id = chunk.id;
  resource_id = chunk.resource_id;
  text = chunk.text;
  score = chunk.score;
  metadata = chunk.metadata;
}

-- The loop of `_compress_context`. `first` is `not selected`.
unfoldable pub compress_from :
    {F V : Type 0}
    → Estimator
    → ℕ
    → Bool
    → ℕ
    → List (VectorSearchResult F V)
    → List (RetrievalChunk F V) × ℕ
compress_from est budget first total [] = ([], total)
compress_from {F} {V} est budget first total (chunk ∷ chunks) =
    let chunk_tokens = count est chunk.text in
    let rest = compress_from est budget false (total + chunk_tokens) chunks in
    let selected : List (RetrievalChunk F V) × ℕ = (to_retrieval_chunk chunk ∷ rest.0, rest.1) in
    if not first && ltb budget (total + chunk_tokens) then ([], total) else selected

-- `_compress_context`
unfoldable pub compress_context :
    {F V : Type 0} → Estimator → List (VectorSearchResult F V) → ℕ → List (RetrievalChunk F V) × ℕ
compress_context est chunks budget = compress_from est budget true 0 chunks

-- `x if x is not None else default`
unfoldable pub get_or {ℓ} : {A : Type ℓ} → Option A → A → A
get_or none default = default
get_or (some a) default = a

-- `request.top_k or self._config.default_top_k`
unfoldable pub resolve_top_k : {F : Type 0} → RetrievalConfig F → RetrievalRequest F → ℕ
resolve_top_k cfg request = if nat_eqb request.top_k 0 then cfg.default_top_k else request.top_k

module _ {F V : Type 0} (fl : Float F) (backend : Backend F V) (cfg : RetrievalConfig F)
    (est : Estimator) where
  -- From the search results to those that are in question: sorted, deduplicated, above the threshold,
  -- and `top_k` at most.
  unfoldable pub rank :
      RetrievalRequest F → List (VectorSearchResult F V) → List (VectorSearchResult F V)
  rank request results =
      let sorted = sort_desc fl (λ result. result.score) results in
      let deduped =
        if several request.resource_ids then deduplicate backend [] sorted else sorted in
      let threshold = get_or request.score_threshold cfg.score_threshold in
      take (resolve_top_k cfg request) (keep_if (λ result. fl.le threshold result.score) deduped)

  -- The end of `retrieve`: the context within its budget, and the prompt.
  unfoldable pub assemble :
      RetrievalRequest F → List (VectorSearchResult F V) → Result (RetrievalResult F V)
  assemble request filtered =
      let compressed =
        compress_context est filtered (get_or request.max_context_tokens cfg.max_context_tokens) in
      backend.build_prompt compressed.0 request.question >>= λ prompt.
      ok (record { chunks = compressed.0; prompt = prompt; context_token_count = compressed.1 })

  -- What `retrieve` does with the search results.
  unfoldable pub deliver :
      RetrievalRequest F → List (VectorSearchResult F V) → Result (RetrievalResult F V)
  deliver request results =
      validate_authorization request.user_id request.resource_ids (rank request results)
      >>= assemble request

  -- The search of `retrieve`, with its `except` clauses.
  unfoldable pub find_candidates :
      RetrievalRequest F → List F → Result (List (VectorSearchResult F V))
  find_candidates request query_vector = hide_failure (
      search_all backend query_vector
        (candidate_top_k (resolve_top_k cfg request) request.resource_ids) request)

  -- `RetrievalService.retrieve`
  unfoldable pub retrieve : RetrievalRequest F → Result (RetrievalResult F V)
  retrieve request =
      backend.embed_query request.question >>= find_candidates request >>= deliver request
