-- ===== src/Hybrid.antt =====
-- ai-service/app/services/hybrid_retrieval and ai-service/app/models/hybrid_retrieval.py: the data,
-- and the merging of request and configuration.
pub mod Fusion
pub mod Cache
pub mod Bm25
pub mod Rerank
pub mod Pipeline
use mkc.Prelude.{ℕ, Bool, Option, List}
use mkc.Prelude.Text.{Text}
use mkc.Chunking.{Metadata}
use mkc.Models.{VectorSearchResult}
use mkc.Retrieval.{get_or}

pub data SearchSource : Type 0 where
  bm25 vector rerank : SearchSource

pub record SearchResult (F V : Type 0) : Type 0 where
  pub chunk_id : Text
  pub resource_id : Text
  pub user_id : Text
  pub text : Text
  pub score : F
  pub source : SearchSource
  pub metadata : Metadata V

-- `HybridRetrievalRequest`
pub record Request (F : Type 0) : Type 0 where
  pub question : Text
  pub user_id : Text
  pub resource_ids : List Text
  pub bm25_weight : Option F
  pub vector_weight : Option F
  pub rrf_k : Option ℕ
  pub rerank_top_n : Option ℕ
  pub final_top_k : Option ℕ
  pub score_threshold : Option F
  pub timeout_ms : Option ℕ

-- `HybridRetrievalConfig`, with the fields that the service reads.
pub record Config (F : Type 0) : Type 0 where
  pub bm25_weight : F
  pub vector_weight : F
  pub rrf_k : ℕ
  pub rerank_top_n : ℕ
  pub final_top_k : ℕ
  pub score_threshold : F
  pub timeout_ms : ℕ
  pub fallback_to_vector : Bool
  pub bm25_cache_index : Bool
  pub bm25_max_docs : ℕ
  pub bm25_cache_max_entries : ℕ
  pub reranker_enabled : Bool

-- `_ResolvedParams`
pub record Params (F : Type 0) : Type 0 where
  pub bm25_weight : F
  pub vector_weight : F
  pub rrf_k : ℕ
  pub rerank_top_n : ℕ
  pub final_top_k : ℕ
  pub score_threshold : F
  pub timeout_ms : ℕ
  pub fallback_to_vector : Bool
  pub bm25_max_docs : ℕ
  pub bm25_cache_max_entries : ℕ
  pub reranker_enabled : Bool

-- `FusionStats`
pub record FusionStats : Type 0 where
  pub bm25_count : ℕ
  pub vector_count : ℕ
  pub fused_count : ℕ

-- `HybridRetrievalResult`
pub record Answer (F V : Type 0) : Type 0 where
  pub chunks : List (SearchResult F V)
  pub fusion : FusionStats
  pub degraded : Bool
  pub elapsed_ms : ℕ

-- `_resolve_params`
unfoldable pub resolve_params : {F : Type 0} → Config F → Request F → Params F
unfolding get_or
resolve_params cfg request = record {
  bm25_weight = get_or request.bm25_weight cfg.bm25_weight;
  vector_weight = get_or request.vector_weight cfg.vector_weight;
  rrf_k = get_or request.rrf_k cfg.rrf_k;
  rerank_top_n = get_or request.rerank_top_n cfg.rerank_top_n;
  final_top_k = get_or request.final_top_k cfg.final_top_k;
  score_threshold = get_or request.score_threshold cfg.score_threshold;
  timeout_ms = get_or request.timeout_ms cfg.timeout_ms;
  fallback_to_vector = cfg.fallback_to_vector;
  bm25_max_docs = cfg.bm25_max_docs;
  bm25_cache_max_entries = cfg.bm25_cache_max_entries;
  reranker_enabled = cfg.reranker_enabled;
}

-- `_to_search_result`
unfoldable pub to_search_result :
    {F V : Type 0} → SearchSource → VectorSearchResult F V → SearchResult F V
to_search_result source hit = record {
  chunk_id = hit.id;
  resource_id = hit.resource_id;
  user_id = hit.user_id;
  text = hit.text;
  score = hit.score;
  source = source;
  metadata = hit.metadata;
}
