-- ===== src/Subtitles.antt =====
-- ai-service/app/services/segment_merger.py: speech segments merged and split into subtitles. A
-- limit of characters is a number that is not negative; the floats stand behind the record `Clock`.
pub mod Splitting
pub mod Merging
pub mod Timecode
use mkc.Prelude.{
  ℕ, zero, suc, Bool, true, false, ◌||◌, ◌&&◌, Option, none, some, List, [], ◌∷◌, ◌++◌, map, length,
  take, drop, leb, ltb, if◌then◌else◌,
}
use mkc.Prelude.Text.{Text, codes, nonempty, strip, text_in}
use mkc.Exceptions.{Exception, other, Result, ok, raise, ◌>>=◌}
use mkc.Indexing.{AsrSegment}

-- The operations on floats: `0.0`, `a < b`, `a + b`, `a - b`, `a * b`, and `m / n` of two integers.
pub record Clock (F : Type 0) : Type 0 where
  pub nought : F
  pub less : F → F → Bool
  pub plus : F → F → F
  pub minus : F → F → F
  pub times : F → F → F
  pub ratio : ℕ → ℕ → F

-- The fields of `SegmentMerger`
pub record MergerConfig (F : Type 0) : Type 0 where
  pub min_duration : F
  pub max_duration : F
  pub max_chars : ℕ
  pub language : Option Text

-- `language in {...}`
unfoldable pub is_unspaced : Option Text → Bool
is_unspaced none = false
is_unspaced (some language) =
    text_in language (codes "zh" ∷ codes "zh-cn" ∷ codes "zh-tw" ∷ codes "ja" ∷ codes "ko" ∷ [])

unfoldable pub join_text : Text → Text → Option Text → Text
join_text left right language =
    if is_unspaced language then left ++ right else strip (left ++ (codes " " ++ right))

-- The slices at `range(0, len(text), max_chars)`, on fuel
unfoldable pub slices_from : ℕ → ℕ → Text → List Text
slices_from zero max_chars text = []
slices_from (suc fuel) max_chars [] = []
slices_from (suc fuel) max_chars (c ∷ text) =
    take max_chars (c ∷ text) ∷ slices_from fuel max_chars (drop max_chars (c ∷ text))

-- `range` refuses a step of nought; there are at most as many slices as characters.
unfoldable pub slices : ℕ → Text → Result (List Text)
slices zero text = raise other
slices (suc n) text = ok (slices_from (length text) (suc n) text)

module _ {F : Type 0} (clock : Clock F) where
  -- Python's `max` and `min` of two values: the first, if they are equal
  unfoldable pub max_of : F → F → F
  max_of a b = if clock.less a b then b else a

  unfoldable pub min_of : F → F → F
  min_of a b = if clock.less b a then b else a

  -- The loop over the chunks of `segment`, of which there are `count`
  unfoldable pub timed_pieces : AsrSegment F → ℕ → F → List Text → List (AsrSegment F)
  timed_pieces segment count current_start [] = []
  timed_pieces segment count current_start (chunk ∷ []) =
      record {
        start = current_start;
        end = segment.end;
        text = chunk;
        confidence = segment.confidence;
      }
      ∷ []
  timed_pieces segment count current_start (chunk ∷ next ∷ chunks) =
      let duration = max_of (clock.minus segment.end segment.start) clock.nought in
      let ratio =
        if nonempty segment.text
        then clock.ratio (length chunk) (length segment.text)
        else clock.ratio 1 count in
      let end = min_of (clock.plus current_start (clock.times duration ratio)) segment.end in
      record { start = current_start; end = end; text = chunk; confidence = segment.confidence }
      ∷ timed_pieces segment count end (next ∷ chunks)

  unfoldable pub split_long_segment : AsrSegment F → ℕ → Result (List (AsrSegment F))
  split_long_segment segment max_chars =
      if leb (length segment.text) max_chars
      then ok (segment ∷ [])
      else (slices max_chars segment.text >>= λ chunks.
          ok (timed_pieces segment (length chunks) segment.start chunks))

  -- `sorted(segments, key=lambda seg: seg.start)`, which keeps the order of equal keys
  unfoldable pub insert_by_start : AsrSegment F → List (AsrSegment F) → List (AsrSegment F)
  insert_by_start x [] = x ∷ []
  insert_by_start x (y ∷ ys) =
      if clock.less y.start x.start then y ∷ insert_by_start x ys else x ∷ y ∷ ys

  unfoldable pub sort_by_start : List (AsrSegment F) → List (AsrSegment F)
  sort_by_start [] = []
  sort_by_start (x ∷ xs) = insert_by_start x (sort_by_start xs)

  unfoldable pub fix_times : AsrSegment F → AsrSegment F
  fix_times segment =
      let start = max_of segment.start clock.nought in
      record {
        start = start;
        end = if clock.less segment.end start then start else segment.end;
        text = segment.text;
        confidence = segment.confidence;
      }

  unfoldable pub normalize : List (AsrSegment F) → List (AsrSegment F)
  normalize segments = map fix_times (sort_by_start segments)

  module _ (cfg : MergerConfig F) where
    unfoldable pub ensure_max_chars : AsrSegment F → Result (List (AsrSegment F))
    ensure_max_chars segment =
        if leb (length segment.text) cfg.max_chars
        then ok (segment ∷ [])
        else split_long_segment segment cfg.max_chars

    unfoldable pub should_merge : AsrSegment F → AsrSegment F → Bool
    should_merge current segment =
        let duration = clock.minus segment.end current.start in
        clock.less duration cfg.min_duration
        || (clock.less duration cfg.max_duration
            && ltb (length (join_text current.text segment.text cfg.language)) cfg.max_chars)

    -- `current` with the end and the text of `segment`
    unfoldable pub absorb : AsrSegment F → AsrSegment F → AsrSegment F
    absorb current segment = record {
      start = current.start;
      end = segment.end;
      text = join_text current.text segment.text cfg.language;
      confidence = current.confidence;
    }

    -- The loop over the segments behind `current`
    unfoldable pub merge_from : AsrSegment F → List (AsrSegment F) → Result (List (AsrSegment F))
    merge_from current [] = ensure_max_chars current
    merge_from current (segment ∷ segments) =
        let merges = should_merge current segment in
        let rest = merge_from (if merges then absorb current segment else segment) segments in
        if merges
        then rest
        else (ensure_max_chars current >>= λ pieces. rest >>= λ later. ok (pieces ++ later))

    unfoldable pub merge_normalized : List (AsrSegment F) → Result (List (AsrSegment F))
    merge_normalized [] = ok []
    merge_normalized (first ∷ segments) = merge_from first segments

    unfoldable pub merge : List (AsrSegment F) → Result (List (AsrSegment F))
    merge [] = ok []
    merge (segment ∷ segments) = merge_normalized (normalize (segment ∷ segments))
