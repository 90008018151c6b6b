-- ===== src/Tests/Indexes.antt =====
-- Witnesses for embedding and indexing: two pages, and a recording of three segments, one of them empty.
use mkc.Prelude.{ℕ, ◌+◌, true, none, List, [], ◌∷◌, ◌≡◌, map, length}
use mkc.Prelude.Text.{Text, codes, join}
use mkc.Exceptions.{ok}
use mkc.Chunking.{Config}
use mkc.Memory.{ChunkInput}
use mkc.Embedding.{EmbeddingConfig, Embedding, Provider, embed}
use mkc.Indexing.{Page, AsrSegment, VectorStore, build_asr_text_ranges}
use mkc.Indexing.Ranges.{Cuts, texts_of, build_asr_text_ranges-Cuts}
use mkc.Tests.{value_of}

abbrev embedding_cfg : EmbeddingConfig
embedding_cfg = record {
  batch_size = 2;
  dimensions = 1;
  max_text_chars = 3;
  max_retries = 2;
  normalize = true;
}

abbrev provider : Provider ℕ
provider = record {
  embed = λ attempt texts. ok (map (λ text. length text ∷ []) texts);
  nought = 0;
  unit = λ vector. vector;
}

abbrev input : ℕ → Text → ChunkInput
input id text = record { id = id ∷ []; resource_id = 7 ∷ []; text = text }

abbrev chunks : List ChunkInput
chunks = input 1 (codes "abcd") ∷ input 2 (codes " ") ∷ input 3 (codes "e") ∷ []

abbrev embeddings : List (Embedding ℕ)
embeddings = value_of (embed provider embedding_cfg chunks) []

abbrev chunking : Config
chunking = record {
  default_strategy = codes "semantic";
  chunk_size = 8;
  chunk_overlap = 0;
  separators = codes "" ∷ [];
  preserve_metadata = true;
  max_input_chars = 100;
}

abbrev store : VectorStore ℕ
store = record { deleted = λ resource_id user_id. ok tt; upserted = λ records. ok (length records) }

abbrev pages : List Page
pages =
    record { page_number = 1; text = codes "one page" }
    ∷ record { page_number = 2; text = codes "two" }
    ∷ []

abbrev segment : ℕ → Text → AsrSegment ℕ
segment start text = record { start = start; end = start + 1; text = text; confidence = none }

abbrev segments : List (AsrSegment ℕ)
segments = segment 0 (codes "ab") ∷ segment 1 [] ∷ segment 2 (codes "c") ∷ []

build_asr_text_ranges-Cuts_example :
    let (text, ranges) = build_asr_text_ranges segments in
    (text ≡ join (codes " ") (texts_of segments)) × Cuts text (texts_of segments) ranges
build_asr_text_ranges-Cuts_example = build_asr_text_ranges-Cuts segments
