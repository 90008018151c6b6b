-- ===== src/Tests/Hybrids.antt =====
-- Witnesses for the hybrid retrieval: two records in the store, the first of which has the word.
use mkc.Prelude.{ℕ, true, none, some, List, [], ◌∷◌, refl, arith, map, length, keep_if, All}
use mkc.Prelude.Text.{Text, codes, text_eqb, text_in, is_space, join}
use mkc.Prelude.Order.{sort_desc, insert_desc}
use mkc.Prelude.Dict.{lookup, insert, set_default, erase}
use mkc.Exceptions.{ok, raise, is_api, other}
use mkc.Models.{VectorSearchResult}
use mkc.Retrieval.{get_or}
use mkc.Hybrid.{
  SearchResult, SearchSource, bm25, vector, Request, Config, Answer, resolve_params,
  to_search_result,
}
use mkc.Hybrid.Fusion.{add_hits, tally, carry, reciprocal_rank_fusion}
use mkc.Hybrid.Fusion.Result.{IsFused, reciprocal_rank_fusion-IsFused}
use mkc.Hybrid.Cache.{move_to_end, evict, remember}
use mkc.Hybrid.Bm25.{
  Engine, whitespace, Store, words_from, tokenize, build_index, matches_filters, enumerate_from,
  collect, pick, search,
}
use mkc.Hybrid.Rerank.{Model, zip_strict, rescore, ranked, rerank_candidates}
use mkc.Hybrid.Pipeline.{
  Services, text_leb, insert_text, sort_texts, bm25_cache_key, or_failed, allowed,
  check_authorization, filters_of, build_store, get_or_build_bm25, bm25_retrieve, vector_retrieve,
  as_vector, timeout_fallback_chunks, rerank_chunks, choose_chunks, answer_of, finalize_result,
  deliver, fuse, combine, after_bm25, retrieve,
}
use mkc.Hybrid.Pipeline.Answers.{IsAnswer, hybrid_retrieve-IsAnswer}
use mkc.Hybrid.Pipeline.Failures.{RestsOn, hybrid_retrieve-not_degraded}
use mkc.Hybrid.Pipeline.CacheKeeps.{IsCache, retrieve-IsCache}
use mkc.Tests.{ℕ_float, value_of, some_of}

abbrev stored : ℕ → Text → VectorSearchResult ℕ ℕ
stored id text = record {
  id = id ∷ [];
  resource_id = 7 ∷ [];
  user_id = 1 ∷ [];
  text = text;
  metadata = [];
  score = 40;
  created_at = 0;
}

abbrev corpus : List (VectorSearchResult ℕ ℕ)
corpus = stored 1 (codes "a b") ∷ stored 2 (codes "c") ∷ []

abbrev engine : Engine ℕ ℕ
engine = record {
  cut = λ text. text ∷ [];
  build = λ corpus. ok 0;
  get_scores = λ index tokens. ok (9 ∷ 0 ∷ []);
}

abbrev predict : Model ℕ
predict pairs = ok (map (λ pair. length pair.1) pairs)

abbrev services : Services ℕ ℕ ℕ
services = record {
  engine = engine;
  tokenizer = whitespace;
  embed_query = λ text. ok (1 ∷ []);
  vector_search = λ vector top_k filters. ok corpus;
  query = λ filters limit. ok corpus;
  reranker = some predict;
}

abbrev broken : Services ℕ ℕ ℕ
broken = record services { embed_query = λ text. raise other; query = λ filters limit. raise other }

abbrev cfg : Config ℕ
cfg = record {
  bm25_weight = 1000;
  vector_weight = 1000;
  rrf_k = 60;
  rerank_top_n = 20;
  final_top_k = 5;
  score_threshold = 2;
  timeout_ms = 800;
  fallback_to_vector = true;
  bm25_cache_index = true;
  bm25_max_docs = 10;
  bm25_cache_max_entries = 1;
  reranker_enabled = true;
}

abbrev request : Request ℕ
request = record {
  question = codes "a";
  user_id = 1 ∷ [];
  resource_ids = (7 ∷ []) ∷ [];
  bm25_weight = none;
  vector_weight = none;
  rrf_k = none;
  rerank_top_n = none;
  final_top_k = none;
  score_threshold = none;
  timeout_ms = none;
}

abbrev hit : ℕ → SearchSource → SearchResult ℕ ℕ
hit id source = record {
  chunk_id = id ∷ [];
  resource_id = 7 ∷ [];
  user_id = 1 ∷ [];
  text = codes "a";
  score = 40;
  source = source;
  metadata = [];
}

abbrev left : List (SearchResult ℕ ℕ)
left = hit 1 bm25 ∷ hit 2 bm25 ∷ []

abbrev right : List (SearchResult ℕ ℕ)
right = hit 2 vector ∷ hit 3 vector ∷ []

abbrev fused : List (SearchResult ℕ ℕ)
fused = some_of (reciprocal_rank_fusion ℕ_float left right 1000 1000 60) []

reciprocal_rank_fusion-IsFused_example : All (IsFused ℕ_float left right 1000 1000 60) fused
unfolding reciprocal_rank_fusion tally add_hits carry sort_desc insert_desc lookup insert
    set_default text_eqb get_or
reciprocal_rank_fusion-IsFused_example =
    reciprocal_rank_fusion-IsFused ℕ_float left right 1000 1000 60 fused refl

abbrev cache : List (Text × ℕ)
cache = (1 ∷ [], 10) ∷ (2 ∷ [], 20) ∷ []

abbrev store : Store ℕ ℕ ℕ
store = record { docs = left; index = some 0 }

abbrev found : List (SearchResult ℕ ℕ)
found = value_of (search ℕ_float engine whitespace store (codes "a") 1 none) []

abbrev reranked : List (SearchResult ℕ ℕ)
reranked = value_of (rerank_candidates ℕ_float (some predict) (codes "a") left 1) []

abbrev answer : Answer ℕ ℕ
answer = value_of (retrieve ℕ_float services cfg request 10 20 []).0 (record {
  chunks = [];
  fusion = record { bm25_count = 0; vector_count = 0; fused_count = 0 };
  degraded = true;
  elapsed_ms = 0;
})

hybrid_retrieve-IsAnswer_example :
    IsAnswer ℕ_float services request (resolve_params cfg request) answer
unfolding retrieve after_bm25 combine fuse deliver finalize_result answer_of choose_chunks
    rerank_chunks timeout_fallback_chunks vector_retrieve bm25_retrieve get_or_build_bm25
    build_store filters_of check_authorization allowed or_failed bm25_cache_key sort_texts
    insert_text text_leb as_vector rerank_candidates ranked rescore zip_strict search tokenize
    words_from is_space pick collect enumerate_from matches_filters build_index remember move_to_end
    evict resolve_params to_search_result reciprocal_rank_fusion tally add_hits carry sort_desc
    insert_desc lookup insert set_default erase text_eqb text_in get_or keep_if join is_api
hybrid_retrieve-IsAnswer_example =
    hybrid_retrieve-IsAnswer ℕ_float services cfg request 10 20 [] answer refl

hybrid_retrieve-not_degraded_example : RestsOn ℕ_float services cfg request 10 20 [] answer
unfolding retrieve after_bm25 combine fuse deliver finalize_result answer_of choose_chunks
    rerank_chunks timeout_fallback_chunks vector_retrieve bm25_retrieve get_or_build_bm25
    build_store filters_of check_authorization allowed or_failed bm25_cache_key sort_texts
    insert_text text_leb as_vector rerank_candidates ranked rescore zip_strict search tokenize
    words_from is_space pick collect enumerate_from matches_filters build_index remember move_to_end
    evict resolve_params to_search_result reciprocal_rank_fusion tally add_hits carry sort_desc
    insert_desc lookup insert set_default erase text_eqb text_in get_or keep_if join is_api
hybrid_retrieve-not_degraded_example =
    hybrid_retrieve-not_degraded ℕ_float services cfg request 10 20 [] answer refl refl

retrieve-IsCache_example : IsCache 1 (retrieve ℕ_float services cfg request 10 20 []).1
retrieve-IsCache_example = retrieve-IsCache ℕ_float services cfg request 10 20 [] (tt, omega arith)
