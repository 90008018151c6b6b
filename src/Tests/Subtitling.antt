-- ===== src/Tests/Subtitling.antt =====
-- Witnesses for subtitles: three segments out of order, with times that are natural numbers.
use mathlib.Core.List.{Perm}
use mkc.Prelude.{ℕ, ◌+◌, ◌-◌, ◌*◌, ◌/◌, ltb, none, some, List, [], ◌∷◌, ◌≡◌, arith}
use mkc.Prelude.Text.{Text, codes}
use mkc.Exceptions.{ok}
use mkc.Indexing.{AsrSegment}
use mkc.Subtitles.{Clock, MergerConfig, split_long_segment, sort_by_start, merge}
use mkc.Subtitles.Splitting.{words, IsSplit, split_long_segment-IsSplit}
use mkc.Subtitles.Merging.{Holds, merge-Holds}
use mkc.Subtitles.Timecode.{Reads, format_timecode, format_timecode-Reads}

abbrev clock : Clock ℕ
clock = record {
  nought = 0;
  less = ltb;
  plus = λ a b. a + b;
  minus = λ a b. a - b;
  times = λ a b. a * b;
  ratio = λ m n. m / n;
}

abbrev cfg : MergerConfig ℕ
cfg = record { min_duration = 1; max_duration = 6; max_chars = 8; language = some (codes "en") }

abbrev segment : ℕ → ℕ → Text → AsrSegment ℕ
segment start end text = record { start = start; end = end; text = text; confidence = none }

abbrev segments : List (AsrSegment ℕ)
segments =
    segment 9 12 (codes "out of order") ∷ segment 0 2 (codes "ab") ∷ segment 2 3 (codes "cd") ∷ []

abbrev long_segment : AsrSegment ℕ
long_segment = segment 9 12 (codes "out of order")

merge-Holds_example :
    (pieces : List (AsrSegment ℕ)) × (merge clock cfg segments ≡ ok pieces)
    × Holds 8 (words (sort_by_start clock segments)) pieces
    × Perm (sort_by_start clock segments) segments
merge-Holds_example = merge-Holds clock cfg segments (omega arith)

split_long_segment-IsSplit_example :
    (pieces : List (AsrSegment ℕ)) × (split_long_segment clock long_segment 8 ≡ ok pieces)
    × IsSplit 8 long_segment pieces
split_long_segment-IsSplit_example = split_long_segment-IsSplit clock long_segment 8 (omega arith)

format_timecode-Reads_example :
    Reads 3725000 (codes ",") (format_timecode clock (λ s. s * 1000) 3725 (codes ","))
format_timecode-Reads_example = format_timecode-Reads clock (λ s. s * 1000) 3725 (codes ",")
