-- ===== src/Tests/Summing.antt =====
-- Witnesses for the summaries: a document of three pages, a recording of two segments, a text that is
-- cut into windows.
use mkc.Prelude.{ℕ, ◌-◌, false, Option, none, some, List, [], ◌∷◌, map, drop, leb, ◌≡◌, refl, arith}
use mkc.Prelude.Text.{Text, codes, join, text_eqb, text_in, strip, lstrip, is_space}
use mkc.Exceptions.{Result, ok}
use mkc.Chunking.{pos, encode, fallback_encode}
use mkc.Summary.Sections.{TocEntry, SrtSegment, Seconds, newline, split_pdf, split_audio, get_or}
use mkc.Summary.Sections.Pages.{Ascends, content_of, joined, split_pdf-joined}
use mkc.Summary.Sections.Buckets.{Buckets, split_audio-Buckets}
use mkc.Summary.MapReduce.{
  LlmProvider, MapReduceConfig, split_chunks, summarize, summarize_chunks, split_limited,
  split_within,
}
use mkc.Summary.MapReduce.Windows.{IsSplit, split_chunks-IsSplit}
use mkc.Summary.{
  SummarizeRequest, SummaryResult, SummaryConfig, generate, full_part, section_part, safe_full,
  full_text,
}
use mkc.Summary.Results.{IsResult, generate-IsResult}

abbrev pages : List (Option Text)
pages = some (codes "a") ∷ some (codes "b") ∷ some (codes "c") ∷ []

abbrev entry : ℕ → TocEntry
entry page = record { title = none; page = some (pos page) }

abbrev toc : List TocEntry
toc = entry 3 ∷ []

abbrev ascending : Ascends 3 0 (entry 2 ∷ toc)
ascending = (1, refl, omega arith, omega arith, (2, refl, omega arith, omega arith, tt))

split_pdf-joined_example :
    join newline (map (content_of ℕ pages) (split_pdf (entry 2 ∷ toc) pages))
    ≡ joined ℕ pages (drop 1 pages)
split_pdf-joined_example = split_pdf-joined ℕ pages (entry 2) toc ascending

abbrev seconds : Seconds ℕ
seconds = record {
  nought = 0;
  minus = λ a b. a - b;
  ge = λ a b. leb b a;
  whole = λ n. n;
  int = λ n. n;
}

abbrev first : SrtSegment ℕ
first = record { start = some 0; end = some 70; text = some (codes "hello") }

abbrev second : SrtSegment ℕ
second = record { start = some 70; end = some 80; text = none }

split_audio-Buckets_example :
    Buckets seconds 1
      (get_or first.start 0)
      (first ∷ second ∷ [])
      (split_audio seconds (first ∷ second ∷ []) 1)
split_audio-Buckets_example = split_audio-Buckets seconds 1 first (second ∷ [])

abbrev small : MapReduceConfig
small = record { chunk_token_limit = some (pos 4); overlap_tokens = some (pos 1) }

split_chunks-IsSplit_example :
    IsSplit none
      (pos 4)
      (pos 1)
      (codes "hello world")
      (split_chunks none small (codes "hello world"))
split_chunks-IsSplit_example = split_chunks-IsSplit none small (codes "hello world")

abbrev provider : LlmProvider
provider = record {
  summarize_full = λ text. ok (codes "short", 3);
  summarize_chunk = λ text. ok (codes "part", 2);
  summarize_section = λ title text. ok (codes "section", 1);
}

abbrev config : SummaryConfig
config = record { map_reduce = small; empty_summary_chars = none; model = none }

abbrev request : SummarizeRequest ℕ
request = record {
  types = codes "full" ∷ [];
  source_type = codes "pdf";
  content = codes "text";
  parsed = none;
  srt_segments = [];
}

abbrev result : SummaryResult ℕ
result = record {
  resource_id = codes "r";
  full_summary = codes "short";
  sections = [];
  model = codes "mock";
  tokens = 3;
  fallback = false;
}

abbrev save : SummaryResult ℕ → Result {0} Unit
save r = ok tt

generated : generate seconds none config provider save (codes "r") request ≡ ok result
unfolding generate full_part section_part safe_full full_text summarize summarize_chunks
    split_chunks split_limited split_within encode fallback_encode strip lstrip is_space text_in
    text_eqb
generated = refl

generate-IsResult_example :
    (save result ≡ ok tt) × IsResult seconds none config provider save request result
generate-IsResult_example =
    generate-IsResult seconds none config provider save request (codes "r") result generated
