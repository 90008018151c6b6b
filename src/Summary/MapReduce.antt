-- ===== src/Summary/MapReduce.antt =====
-- ai-service/app/services/summary/map_reduce_summarizer.py: a long text is cut into windows of tokens,
-- which are summarized one by one and then together. The language model is the record `LlmProvider`.
pub mod Windows
use mkc.Prelude.{
  ℕ, zero, suc, ◌+◌, ◌-◌, max, Bool, true, false, Option, List, [], ◌∷◌, ◌++◌, map, length, take,
  drop, leb, if◌then◌else◌,
}
use mkc.Prelude.Text.{Text, codes, join}
use mkc.Exceptions.{Exception, Result, ok, raise, ◌>>=◌}
use mkc.Chunking.{Estimator, encode, decode, ℤ, pos, negsuc}
use mkc.Summary.Sections.{get_or}

-- The calls of `SummaryLLMProvider`: a summary and the tokens it took
pub record LlmProvider : Type 0 where
  pub summarize_full : Text → Result (Text × ℕ)
  pub summarize_chunk : Text → Result (Text × ℕ)
  pub summarize_section : Text → Text → Result (Text × ℕ)

-- The keys of `map_reduce` that are read
pub record MapReduceConfig : Type 0 where
  pub chunk_token_limit : Option ℤ
  pub overlap_tokens : Option ℤ

-- `max(1, limit - max(0, overlap))`, for a positive limit
unfoldable pub step_of : ℕ → ℤ → ℕ
step_of limit (pos overlap) = max 1 (limit - overlap)
step_of limit (negsuc n) = max 1 limit

-- The loop of `_split_chunks` on the tokens from `start` on, on fuel. The length of the tokens is enough,
-- since each round leaves at least one behind.
unfoldable pub token_windows : ℕ → ℕ → ℕ → List ℕ → List (List ℕ)
token_windows zero limit step tokens = []
token_windows (suc fuel) limit step tokens =
    let rest = token_windows fuel limit step (drop step tokens) in
    if leb (length tokens) limit then take limit tokens ∷ [] else take limit tokens ∷ rest

-- `_split_chunks`, where the limit is positive
unfoldable pub split_within : Estimator → ℕ → ℤ → Text → List Text
split_within estimator limit overlap text =
    let tokens = encode estimator text in
    if leb (length tokens) limit
    then text ∷ []
    else map (decode estimator) (token_windows (length tokens) limit (step_of limit overlap) tokens)

unfoldable pub split_limited : Estimator → ℤ → ℤ → Text → List Text
split_limited estimator (pos (suc n)) overlap text = split_within estimator (suc n) overlap text
split_limited estimator _ overlap text = text ∷ []

-- `_split_chunks`
unfoldable pub split_chunks : Estimator → MapReduceConfig → Text → List Text
split_chunks estimator config text =
    split_limited estimator (get_or config.chunk_token_limit (pos 3000))
      (get_or config.overlap_tokens (pos 100)) text

-- The loop of `summarize`: the summaries of the chunks, and the tokens of all
unfoldable pub summarize_each : LlmProvider → List Text → Result (List Text × ℕ)
summarize_each provider [] = ok ([], 0)
summarize_each provider (chunk ∷ chunks) = provider.summarize_chunk chunk >>= λ (summary, tokens).
    summarize_each provider chunks >>= λ (partials, total). ok (summary ∷ partials, tokens + total)

unfoldable pub summarize_chunks : LlmProvider → Text → List Text → Result (Text × ℕ)
summarize_chunks provider text (chunk ∷ other ∷ chunks) =
    summarize_each provider (chunk ∷ other ∷ chunks) >>= λ (partials, total).
    provider.summarize_full (join (codes "\n\n") partials) >>= λ (merged, tokens).
    ok (merged, total + tokens)
summarize_chunks provider text _ = provider.summarize_full text

-- `summarize`
unfoldable pub summarize : Estimator → MapReduceConfig → LlmProvider → Text → Result (Text × ℕ)
summarize estimator config provider text =
    summarize_chunks provider text (split_chunks estimator config text)
