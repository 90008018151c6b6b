-- ===== src/Tests/Retrieves.antt =====
-- Witnesses for the retrieval: two hits of user 1 and one of resource 7, all with the same text.
use mkc.Prelude.{ℕ, none, List, [], ◌∷◌}
use mkc.Exceptions.{ok, raise, other}
use mkc.Models.{VectorSearchResult, RetrievalRequest, RetrievalResult}
use mkc.Retrieval.{RetrievalConfig, Backend, retrieve}
use mkc.Tests.{ℕ_float, value_of}

abbrev hit : ℕ → ℕ → VectorSearchResult ℕ ℕ
hit id score = record {
  id = id ∷ [];
  resource_id = 7 ∷ [];
  user_id = 1 ∷ [];
  text = b'a' ∷ b' ' ∷ id ∷ [];
  metadata = [];
  score = score;
  created_at = 0;
}

abbrev hits : List (VectorSearchResult ℕ ℕ)
hits = hit 1 30 ∷ hit 2 50 ∷ hit 1 20 ∷ []

abbrev backend : Backend ℕ ℕ
backend = record {
  embed_query = λ text. ok (1 ∷ []);
  search = λ vector top_k filters. ok hits;
  build_prompt = λ chunks question. ok question;
  sha1 = λ text. text;
}

abbrev broken : Backend ℕ ℕ
broken = record backend { search = λ vector top_k filters. raise other }

abbrev cfg : RetrievalConfig ℕ
cfg = record { default_top_k = 5; score_threshold = 25; max_context_tokens = 4 }

abbrev request : RetrievalRequest ℕ
request = record {
  question = b'q' ∷ [];
  user_id = 1 ∷ [];
  resource_ids = (7 ∷ []) ∷ (8 ∷ []) ∷ [];
  top_k = 0;
  score_threshold = none;
  max_context_tokens = none;
}

abbrev result : RetrievalResult ℕ ℕ
result =
    value_of (retrieve ℕ_float backend cfg none request)
      (record { chunks = []; prompt = []; context_token_count = 0 })
