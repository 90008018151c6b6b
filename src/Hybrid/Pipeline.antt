-- ===== src/Hybrid/Pipeline.antt =====
-- `HybridRetrievalService`: both paths, the fusion, the reranking and the checks at the end. Its state is
-- the cache of BM25 indexes. The embedding service, the vector store, jieba, rank-bm25 and the
-- cross-encoder are the record `Services`; the readings of the clock are arguments.
pub mod CacheKeeps
pub mod Answers
pub mod Failures
use mkc.Prelude.{
  ℕ, ◌+◌, ◌-◌, ◌≤◌, Bool, true, false, ◌&&◌, ◌||◌, not, Option, none, some, List, [], ◌∷◌, ◌++◌,
  map, length, take, keep_if, ltb, leb, if◌then◌else◌, ◌≡◌,
}
use mkc.Prelude.Text.{Text, codes, text_eqb, text_in, nonempty, join}
use mkc.Prelude.Order.{Float}
use mkc.Prelude.Dict.{lookup}
use mkc.Exceptions.{
  Exception, Result, ok, raise, ◌>>=◌, is_api, other, retrieval_forbidden, retrieval_unavailable,
}
use mkc.Models.{VectorSearchResult, Filters}
use mkc.Hybrid.{
  SearchSource, bm25, vector, SearchResult, Request, Config, Params, FusionStats, Answer,
  resolve_params, to_search_result,
}
use mkc.Hybrid.Fusion.{reciprocal_rank_fusion}
use mkc.Hybrid.Cache.{move_to_end, remember}
use mkc.Hybrid.Bm25.{Engine, Tokenizer, Store, build_index, search}
use mkc.Hybrid.Rerank.{Model, rerank_candidates}

-- What the service is built with.
pub record Services (F V I : Type 0) : Type 0 where
  pub engine : Engine F I
  pub tokenizer : Tokenizer
  pub embed_query : Text → Result (List F)
  pub vector_search : List F → ℕ → Filters → Result (List (VectorSearchResult F V))
  pub query : Filters → ℕ → Result (List (VectorSearchResult F V))
  pub reranker : Option (Model F)

-- `a <= b` on texts, by code points
unfoldable pub text_leb : Text → Text → Bool
text_leb [] t = true
text_leb (a ∷ s) [] = false
text_leb (a ∷ s) (b ∷ t) = ltb a b || (leb a b && text_leb s t)

unfoldable pub insert_text : Text → List Text → List Text
insert_text s [] = s ∷ []
insert_text s (t ∷ ts) = if text_leb s t then s ∷ t ∷ ts else t ∷ insert_text s ts

-- `sorted(ids)`
unfoldable pub sort_texts : List Text → List Text
unfolding insert_text
sort_texts [] = []
sort_texts (s ∷ ts) = insert_text s (sort_texts ts)

-- `_bm25_cache_key`
unfoldable pub bm25_cache_key : Filters → Text
bm25_cache_key filters =
    filters.user_id ++ (codes "|" ++ join (codes ",") (sort_texts filters.resource_ids))

-- The `except` clauses of both paths and of the reranking: the value and whether it failed.
unfoldable pub or_failed : {A : Type 0} → A → Result A → Result (A × Bool)
or_failed default (ok a) = ok (a, false)
or_failed default (raise e) = if is_api e then raise e else ok (default, true)

-- A chunk of another user, or of a resource that is not asked for, is an error.
unfoldable pub allowed : {F V : Type 0} → Text → List Text → SearchResult F V → Bool
allowed user_id resource_ids chunk =
    text_eqb chunk.user_id user_id && text_in chunk.resource_id resource_ids

-- `_validate_authorization`: the chunks, if all are allowed.
unfoldable pub check_authorization :
    {F V : Type 0} → Text → List Text → List (SearchResult F V) → Result (List (SearchResult F V))
check_authorization user_id resource_ids [] = ok []
check_authorization user_id resource_ids (chunk ∷ chunks) =
    let rest =
      check_authorization user_id resource_ids chunks >>= λ checked. ok (chunk ∷ checked) in
    if allowed user_id resource_ids chunk then rest else raise retrieval_forbidden

unfoldable pub as_vector : {F V : Type 0} → SearchResult F V → SearchResult F V
as_vector hit = record hit { source = vector }

unfoldable pub filters_of : {F : Type 0} → Request F → Filters
filters_of request = record { user_id = request.user_id; resource_ids = request.resource_ids }

module _ {F V I : Type 0} (fl : Float F) (services : Services F V I) where
  -- `_load_corpus`, the factory and `index`
  unfoldable pub build_store : Filters → ℕ → Result (Store F V I)
  build_store filters max_docs = services.query filters max_docs >>= λ records.
      build_index services.engine services.tokenizer (map (to_search_result bm25) records)

  -- `_get_or_build_bm25`
  unfoldable pub get_or_build_bm25 :
      Config F
      → Filters
      → Params F
      → List (Text × Store F V I)
      → Result (Store F V I) × List (Text × Store F V I)
  get_or_build_bm25 cfg filters params cache =
      let key = bm25_cache_key filters in
      let built : Result (Store F V I) × List (Text × Store F V I) =
        elim (build_store filters params.bm25_max_docs) [
          | raise e ↦ (raise e, cache)
          | ok store ↦ (
            ok store,
            if cfg.bm25_cache_index
                then remember key store params.bm25_cache_max_entries cache
                else cache,
          )
        ] in
      if cfg.bm25_cache_index
      then elim (lookup key cache) [ none ↦ built | some store ↦ (ok store, move_to_end key cache) ]
      else built

  -- `_bm25_retrieve`
  unfoldable pub bm25_retrieve :
      Config F
      → Request F
      → Params F
      → List (Text × Store F V I)
      → Result (List (SearchResult F V) × Bool) × List (Text × Store F V I)
  bm25_retrieve cfg request params cache =
      let got = get_or_build_bm25 cfg (filters_of request) params cache in
      (
        or_failed [] (
            got.0 >>= λ store.
            search fl services.engine services.tokenizer store request.question params.rerank_top_n
              (some (filters_of request))),
        got.1,
      )

  -- `_vector_retrieve`
  unfoldable pub vector_retrieve : Request F → Params F → Result (List (SearchResult F V) × Bool)
  vector_retrieve request params = or_failed [] (
      services.embed_query request.question >>= λ query_vector.
      services.vector_search query_vector params.rerank_top_n (filters_of request) >>= λ results.
      ok (map (to_search_result vector) results))

  -- `_timeout_fallback_chunks`
  unfoldable pub timeout_fallback_chunks :
      Params F → List (SearchResult F V) → List (SearchResult F V) → List (SearchResult F V)
  timeout_fallback_chunks params vector_hits fused_top =
      if params.fallback_to_vector && nonempty vector_hits
      then map as_vector (take params.final_top_k vector_hits)
      else take params.final_top_k fused_top

  -- `_rerank_chunks`
  unfoldable pub rerank_chunks :
      Text → List (SearchResult F V) → Params F → Result (List (SearchResult F V) × Bool)
  rerank_chunks question fused_top params =
      or_failed (take params.final_top_k fused_top)
        (rerank_candidates fl services.reranker question fused_top params.final_top_k)

  -- The chunks of the answer, before they are checked, and whether this degraded it.
  unfoldable pub choose_chunks :
      Request F
      → Params F
      → ℕ
      → List (SearchResult F V)
      → List (SearchResult F V)
      → Result (List (SearchResult F V) × Bool)
  choose_chunks request params elapsed vector_hits fused_top =
      if leb params.timeout_ms elapsed
      then ok (timeout_fallback_chunks params vector_hits fused_top, true)
      else if params.reranker_enabled
      then rerank_chunks request.question fused_top params
      else ok (take params.final_top_k fused_top, false)

  -- The result that `_finalize_result` builds.
  unfoldable pub answer_of :
      Params F → FusionStats → Bool → ℕ → List (SearchResult F V) → Answer F V
  answer_of params fusion degraded elapsed chunks = record {
    chunks = keep_if (λ chunk. fl.le params.score_threshold chunk.score) chunks;
    fusion = fusion;
    degraded = degraded;
    elapsed_ms = elapsed;
  }

  -- `_finalize_result`
  unfoldable pub finalize_result :
      Request F → Params F → FusionStats → Bool → ℕ → List (SearchResult F V) → Result (Answer F V)
  finalize_result request params fusion degraded elapsed chunks =
      check_authorization request.user_id request.resource_ids chunks >>= λ checked.
      ok (answer_of params fusion degraded elapsed checked)

  -- From the fused list on; `middle` and `last` are the two readings of the clock.
  unfoldable pub deliver :
      Request F
      → Params F
      → ℕ
      → ℕ
      → Bool
      → List (SearchResult F V)
      → List (SearchResult F V)
      → List (SearchResult F V)
      → Result (Answer F V)
  deliver request params middle last degraded bm25_hits vector_hits fused =
      let fusion : FusionStats = record {
        bm25_count = length bm25_hits;
        vector_count = length vector_hits;
        fused_count = length fused;
      } in
      choose_chunks request params middle vector_hits (take params.rerank_top_n fused) >>= λ chosen.
      finalize_result request params fusion (degraded || chosen.1) last chosen.0

  -- From the fusion on
  unfoldable pub fuse :
      Request F
      → Params F
      → ℕ
      → ℕ
      → Bool
      → List (SearchResult F V)
      → List (SearchResult F V)
      → Result (Answer F V)
  fuse request params middle last degraded bm25_hits vector_hits =
      elim (reciprocal_rank_fusion fl bm25_hits vector_hits params.bm25_weight params.vector_weight
        params.rrf_k) [
          | none ↦ raise other
          | some fused ↦ deliver request params middle last degraded bm25_hits vector_hits fused
        ]

  -- What `retrieve` does with the hits of both paths.
  unfoldable pub combine :
      Request F
      → Params F
      → ℕ
      → ℕ
      → List (SearchResult F V) × Bool
      → List (SearchResult F V) × Bool
      → Result (Answer F V)
  combine request params middle last (bm25_hits, bm25_failed) (vector_hits, vector_failed) =
      let degraded = bm25_failed || vector_failed in
      let empty : Result (Answer F V) = ok (record {
        chunks = [];
        fusion = record { bm25_count = 0; vector_count = 0; fused_count = 0 };
        degraded = degraded;
        elapsed_ms = middle;
      }) in
      let full = fuse request params middle last degraded bm25_hits vector_hits in
      if bm25_failed && vector_failed
      then raise retrieval_unavailable
      else if not (nonempty bm25_hits) && not (nonempty vector_hits)
      then empty
      else full

  -- The vector path, after the BM25 path
  unfoldable pub after_bm25 :
      Request F → Params F → ℕ → ℕ → List (SearchResult F V) × Bool → Result (Answer F V)
  after_bm25 request params middle last from_bm25 =
      vector_retrieve request params >>= combine request params middle last from_bm25

  -- `HybridRetrievalService.retrieve`, with the cache that it leaves.
  unfoldable pub retrieve :
      Config F
      → Request F
      → ℕ
      → ℕ
      → List (Text × Store F V I)
      → Result (Answer F V) × List (Text × Store F V I)
  retrieve cfg request middle last cache =
      let params = resolve_params cfg request in
      let from_bm25 = bm25_retrieve cfg request params cache in
      (from_bm25.0 >>= after_bm25 request params middle last, from_bm25.1)
