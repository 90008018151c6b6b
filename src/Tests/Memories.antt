-- ===== src/Tests/Memories.antt =====
-- Witnesses for the memory, with a store that returns one hit.
use mkc.Prelude.{ℕ, ◌≤◌, true, List, [], ◌∷◌, ◌≡◌, ◌⊎◌, All}
use mkc.Prelude.Text.{Text, codes}
use mkc.Exceptions.{ok}
use mkc.Models.{VectorSearchResult, VectorRecord}
use mkc.Memory.{
  MemoryConfig, MemoryBackend, render, find_memories, load_context, save_turn, save_user_facts,
}
use mkc.Memory.Context.{total_tokens, IsSnippet, IsRelevant, load_context-bounded}
use mkc.Tests.{ℕ_float, some_of}

abbrev hit : VectorSearchResult ℕ ℕ
hit = record {
  id = 1 ∷ [];
  resource_id = 7 ∷ [];
  user_id = 1 ∷ [];
  text = codes " hello ";
  metadata = [];
  score = 3;
  created_at = 0;
}

abbrev backend : MemoryBackend ℕ ℕ
backend = record {
  embed_query = λ text. ok (1 ∷ []);
  search = λ vector top_k filters. ok (hit ∷ []);
  embed = λ chunks. ok ((4 ∷ []) ∷ []);
}

abbrev cfg : MemoryConfig ℕ
cfg = record {
  enabled = true;
  top_k = 5;
  score_threshold = 2;
  max_context_tokens = 10;
  conversation_prefix = codes "c";
  user_prefix = codes "u";
}

load_context-bounded_example :
    (load_context ℕ_float cfg backend (1 ∷ []) (2 ∷ []) (3 ∷ []) ≡ [])
    ⊎ ((results : List (VectorSearchResult ℕ ℕ)) × (snippets : List Text) × (find_memories ℕ_float
            cfg backend
            (1 ∷ [])
            (2 ∷ [])
            (3 ∷ [])
          ≡ ok results)
        × (load_context ℕ_float cfg backend (1 ∷ []) (2 ∷ []) (3 ∷ []) ≡ render snippets)
        × (total_tokens snippets ≤ 10)
        × All (IsSnippet (IsRelevant ℕ_float cfg backend results)) snippets)
load_context-bounded_example = load_context-bounded ℕ_float cfg backend (1 ∷ []) (2 ∷ []) (3 ∷ [])

abbrev turn : List (VectorRecord ℕ Text)
turn =
    some_of
      (save_turn ℕ_float cfg backend (5 ∷ []) (6 ∷ []) (1 ∷ []) (2 ∷ []) (b'q' ∷ []) (b'a' ∷ []) [])
      []

abbrev facts : List (VectorRecord ℕ Text)
facts = some_of (save_user_facts ℕ_float cfg backend (1 ∷ []) ((5 ∷ [], b'f' ∷ []) ∷ [])) []
