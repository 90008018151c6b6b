-- ===== src/Summary.antt =====
-- ai-service/app/services/summary/summary_service.py: the summary of a document or a recording, and those
-- of its sections. The language model and the repository are parameters.
pub mod Sections
pub mod MapReduce
pub mod Results
use mkc.Prelude.{
  ℕ, zero, suc, ◌+◌, Bool, true, false, not, ◌&&◌, Option, none, some, List, [], ◌∷◌, map, take,
  if◌then◌else◌,
}
use mkc.Prelude.Text.{Text, codes, text_eqb, text_in, nonempty, strip, join}
use mkc.Exceptions.{Exception, Result, ok, raise, ◌>>=◌}
use mkc.Chunking.{Estimator, ℤ, pos, negsuc}
use mkc.Summary.Sections.{
  SectionSummary, TocEntry, SrtSegment, Seconds, get_or, slice_at, newline, split_pdf, split_audio,
}
use mkc.Summary.MapReduce.{LlmProvider, MapReduceConfig, summarize}

-- A parsed document: its table of contents and its pages
pub record Parsed : Type 0 where
  pub toc : List TocEntry
  pub pages : List (Option Text)

-- `SummarizeRequest`
pub record SummarizeRequest (F : Type 0) : Type 0 where
  pub types : List Text
  pub source_type : Text
  pub content : Text
  pub parsed : Option Parsed
  pub srt_segments : List (SrtSegment F)

-- `SummaryResult`, without the time it was made
pub record SummaryResult (F : Type 0) : Type 0 where
  pub resource_id : Text
  pub full_summary : Text
  pub sections : List (SectionSummary F)
  pub model : Text
  pub tokens : ℕ
  pub fallback : Bool

-- The keys of the configuration that are read
pub record SummaryConfig : Type 0 where
  pub map_reduce : MapReduceConfig
  pub empty_summary_chars : Option ℤ
  pub model : Option Text

-- `str(page.get("text", ""))` of each, joined
abbrev pub join_texts : List (Option Text) → Text
join_texts texts = join newline (map (λ text. get_or text []) texts)

-- `_full_text`
unfoldable pub full_text : {F : Type 0} → SummarizeRequest F → Text
full_text request = if nonempty request.content then request.content else elim request.parsed [
  | some parsed ↦ join_texts parsed.pages
  | none ↦ join_texts (map (λ segment. segment.text) request.srt_segments)
]

module _ {F : Type 0} (seconds : Seconds F) where
  unfoldable pub split_segments : List (SrtSegment F) → List (SectionSummary F)
  split_segments segments = split_audio seconds segments 5

  -- `_split_sections`
  unfoldable pub split_sections : SummarizeRequest F → List (SectionSummary F)
  split_sections request = elim request.parsed [
    | some parsed ↦
        if text_eqb request.source_type (codes "pdf")
        then split_pdf parsed.toc parsed.pages
        else split_segments request.srt_segments
    | none ↦ split_segments request.srt_segments
  ]

-- `_fallback_text`
unfoldable pub fallback_text : SummaryConfig → Text → Text
fallback_text config text = slice_at (pos 0) (get_or config.empty_summary_chars (pos 200)) text

-- `_safe_full`: the summary, the tokens, and whether it is the beginning of the text instead
unfoldable pub safe_full : Estimator → SummaryConfig → LlmProvider → Text → Result (Text × ℕ × Bool)
safe_full estimator config provider text =
    summarize estimator config.map_reduce provider text >>= λ (summary, tokens). ok (
      if nonempty (strip summary)
      then (strip summary, tokens, false)
      else (fallback_text config text, tokens, true))

-- `_summarize_sections`
unfoldable pub summarize_sections :
    {F : Type 0} → LlmProvider → List (SectionSummary F) → Result (List (SectionSummary F))
summarize_sections provider [] = ok []
summarize_sections provider (section ∷ sections) =
    if nonempty (strip section.content)
    then (provider.summarize_section section.title section.content >>= λ (summary, tokens).
        summarize_sections provider sections >>= λ rest.
        ok (record section { summary = summary } ∷ rest))
    else summarize_sections provider sections

module _ {F : Type 0} (seconds : Seconds F) (estimator : Estimator) (config : SummaryConfig)
    (provider : LlmProvider) (save : SummaryResult F → Result {0} Unit) where
  -- The part of `generate` for "full"; `result.tokens` and `result.fallback` are 0 and `False` before
  unfoldable pub full_part : SummarizeRequest F → Result (Text × ℕ × Bool)
  full_part request =
      if text_in (codes "full") request.types
      then safe_full estimator config provider (full_text request)
      else ok ([], 0, false)

  unfoldable pub section_part : SummarizeRequest F → Result (List (SectionSummary F))
  section_part request =
      if text_in (codes "section") request.types
      then summarize_sections provider (split_sections seconds request)
      else ok []

  -- `generate`
  unfoldable pub generate : Text → SummarizeRequest F → Result (SummaryResult F)
  generate resource_id request = full_part request >>= λ (summary, tokens, fallback).
      section_part request >>= λ sections.
      let result : SummaryResult F = record {
        resource_id = resource_id;
        full_summary = summary;
        sections = sections;
        model = get_or config.model (codes "mock");
        tokens = tokens;
        fallback = fallback;
      } in
      save result >>= λ _. ok result
