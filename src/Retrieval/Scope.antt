-- ===== src/Retrieval/Scope.antt =====
-- Nothing out of scope is returned, and what is returned is ranked.
use mkc.Retrieval.Hits.{IsHit}
use mkc.Prelude.{ℕ, ◌≤◌, true, List, length, All, ◌≡◌}
use mkc.Prelude.Text.{Text, text_in}
use mkc.Prelude.Order.{Float}
use mkc.Exceptions.{ok}
use mkc.Chunking.{Estimator}
use mkc.Models.{VectorSearchResult, RetrievalRequest, RetrievalResult}
use mkc.Retrieval.{Backend, RetrievalConfig, in_scope, get_or, resolve_top_k}
use mkc.Retrieval.Budget.{Selects}

-- A hit that the request may see.
abbrev pub InScope : {F V : Type 0} → RetrievalRequest F → VectorSearchResult F V → Type 0
InScope request hit =
    (hit.user_id ≡ request.user_id) × (text_in hit.resource_id request.resource_ids ≡ true)

module _ {F V : Type 0} (fl : Float F) (backend : Backend F V) (cfg : RetrievalConfig F)
    (est : Estimator) (request : RetrievalRequest F) where
  abbrev pub threshold : F
  threshold = get_or request.score_threshold cfg.score_threshold

  abbrev pub budget : ℕ
  budget = get_or request.max_context_tokens cfg.max_context_tokens

  -- What a result rests on: hits that the store returned in searches of the user for the vector of the
  -- question, that are all in the scope of the request, at most `top_k` and not below the threshold, of
  -- which those are returned that the budget allows.
  pub record Delivered (r : RetrievalResult F V) : Type 0 where
    pub query_vector : List F
    pub hits : List (VectorSearchResult F V)
    pub kept : ℕ
    pub embedded : backend.embed_query request.question ≡ ok query_vector
    pub found : All (IsHit backend request query_vector) hits
    pub in_scope : All (InScope request) hits
    pub limited : length hits ≤ resolve_top_k cfg request
    pub above : All (λ h. fl.le threshold h.score ≡ true) hits
    pub selected : Selects est budget true 0 hits (r.chunks, r.context_token_count) kept
