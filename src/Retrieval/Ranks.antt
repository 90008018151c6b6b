-- ===== src/Retrieval/Ranks.antt =====
-- The order of the results, the number of candidates, and the failures of the search.
use mkc.Prelude.{ℕ, ◌≤◌, List, [], ◌∷◌, ◌≡◌, arith, Bool-cases, inl, inr, if◌then◌else◌}
use mkc.Prelude.Text.{Text, text_in}
use mkc.Prelude.Order.{Float, IsOrdered, sort_desc, sort_desc-Desc, Desc, Desc-take, Desc-keep_if}
use mkc.Exceptions.{Exception, ok, raise, is_api, retrieval_unavailable}
use mkc.Chunking.{Estimator}
use mkc.Models.{VectorSearchResult, RetrievalRequest}
use mkc.Retrieval.{
  Backend, RetrievalConfig, several, candidate_top_k, hide_failure, dedup_key, deduplicate,
  resolve_top_k, rank, search_all, find_candidates, retrieve, get_or,
}
use mkc.Retrieval.Dedup.{All-deduplicate}

-- A request for at most 100 results makes a search for at least as many candidates, and for at most
-- 100.
pub candidate_top_k_bounds :
    (top_k : ℕ) (resource_ids : List Text)
    → top_k ≤ 100
    → (top_k ≤ candidate_top_k top_k resource_ids) × (candidate_top_k top_k resource_ids ≤ 100)
unfolding candidate_top_k
candidate_top_k_bounds top_k resource_ids h = ground arith

module _ {F V : Type 0} (fl : Float F) (o : IsOrdered fl) (backend : Backend F V) where
  abbrev score : VectorSearchResult F V → F
  score hit = hit.score

  deduplicate-Desc :
      (seen : List Text) (hits : List (VectorSearchResult F V))
      → Desc fl score hits
      → Desc fl score (deduplicate backend seen hits)
  unfolding deduplicate
  deduplicate-Desc seen [] h = tt
  deduplicate-Desc seen (x ∷ xs) h = elim (Bool-cases (text_in (dedup_key backend x) seen)) [
    | inl old ↦ rw old (deduplicate-Desc seen xs h.1)
    | inr new ↦ rw new (
      All-deduplicate backend _ (dedup_key backend x ∷ seen) xs h.0,
      deduplicate-Desc (dedup_key backend x ∷ seen) xs h.1,
    )
  ]

  -- The hits that are delivered are in order of their scores, the best first, where floats that are
  -- not NaN are compared.
  rank-Desc :
      (cfg : RetrievalConfig F) (est : Estimator) (request : RetrievalRequest F)
      (results : List (VectorSearchResult F V))
      → Desc fl score (rank fl backend cfg est request results)
  unfolding rank
  rank-Desc cfg est request results =
      let sorted = sort_desc fl score results in
      let s = sort_desc-Desc fl score o results in
      let p = λ (hit : VectorSearchResult F V).
        fl.le (get_or request.score_threshold cfg.score_threshold) hit.score in
      elim (Bool-cases (several request.resource_ids)) [
        | inl e ↦ rw e (
            Desc-take fl score (resolve_top_k cfg request) _
              (Desc-keep_if fl score p _ (deduplicate-Desc [] sorted s)))
        | inr e ↦
            rw e
              (Desc-take fl score (resolve_top_k cfg request) _ (Desc-keep_if fl score p sorted s))
      ]

-- A failure of the search reaches the caller as it is if it is an `APIException`, and as
-- `RetrievalUnavailableError` if not.
retrieve_failure :
    {F V : Type 0} (fl : Float F) (backend : Backend F V) (cfg : RetrievalConfig F)
    (est : Estimator) (request : RetrievalRequest F) (v : List F) (e : Exception)
    → backend.embed_query request.question ≡ ok v
    → search_all backend v
        (candidate_top_k (resolve_top_k cfg request) request.resource_ids)
        request
      ≡ raise e
    → retrieve fl backend cfg est request ≡ raise (if is_api e then e else retrieval_unavailable)
unfolding retrieve find_candidates hide_failure
retrieve_failure fl backend cfg est request v e h k = rw (h, k) (ground arith)
