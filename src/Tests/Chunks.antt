-- ===== src/Tests/Chunks.antt =====
-- Witnesses for the chunkers, on a text of twelve characters and windows of four.
use mkc.Prelude.{
  ℕ, suc, ◌-◌, ◌≤◌, ◌<◌, true, none, List, [], ◌∷◌, ◌≡◌, refl, arith, length, drop, slice,
  length-map, length-take,
}
use mkc.Prelude.Text.{Text, codes, text_eqb, strip, lstrip, is_space}
use mkc.Prelude.Decimal.{decimal, digits_onto}
use mkc.Chunking.{Config, Chunk, ends_empty, count, encode, fallback_encode, make_chunk, chunk_id}
use mkc.Chunking.Fixed
use mkc.Chunking.Fixed.Laws.{Windows, split-Windows}
use mkc.Chunking.Paragraph
use mkc.Chunking.Paragraph.Ink.{ink, paragraph_split-ink}
use mkc.Chunking.Base.{split_text}
use mkc.Chunking.Base.Tiles.{texts, Splits, Bounded}
use mkc.Chunking.Base.SplitText.{split_text-Splits}
use mkc.Chunking.Semantic
use mkc.Chunking.Semantic.{Numbered, pieces_of, semantic_split-Splits}
use mkc.Chunking.Ids.{DistinctIds}
use mkc.Chunking.Service.{chunk, select_strategy, run_strategy, chunk-DistinctIds}
use mkc.Chunking.Checks.{IsValid}
use mkc.Tests.{value_of}

abbrev cfg : Config
cfg = record {
  default_strategy = codes "fixed_token";
  chunk_size = 4;
  chunk_overlap = 1;
  separators = codes " " ∷ codes "" ∷ [];
  preserve_metadata = true;
  max_input_chars = 100;
}

abbrev text : Text
text = codes "ab cd\n\nefghi"

abbrev id : Text
id = codes "r"

abbrev lower : Text → Text
lower t = t

one_each : (i : ℕ) → i < length text → count none (slice i (suc i) text) ≤ 4
unfolding count encode fallback_encode
one_each i lt = omega (
  arith,
  length-map (λ (char : ℕ). char) (slice i (suc i) text),
  length-take (suc i - i) (drop i text),
)

split-Windows_example : Windows cfg none text id (Fixed.split cfg none {V = ℕ} text id [])
split-Windows_example = split-Windows cfg none text id [] one_each

paragraph_split-ink_example :
    let cs = Paragraph.split cfg none {V = ℕ} id [] text in
    Numbered id 0 cs × (ink (texts (pieces_of cs)) ≡ ink text) × Bounded cfg (pieces_of cs)
paragraph_split-ink_example = paragraph_split-ink cfg none (omega arith) {V = ℕ} id [] text

split_text-Splits_example : Splits cfg text 5 (split_text cfg none text 5 (codes " " ∷ []) true)
split_text-Splits_example = split_text-Splits cfg none text 5 (codes " " ∷ []) true (omega arith)

semantic_split-Splits_example :
    Numbered id 0 (Semantic.split cfg none {V = ℕ} id [] text)
    × Splits cfg text 0 (pieces_of (Semantic.split cfg none {V = ℕ} id [] text))
semantic_split-Splits_example = semantic_split-Splits cfg none id [] text (omega arith)

abbrev chunks : List (Chunk ℕ)
chunks = value_of (chunk lower cfg none text id [] none) []

chunk-DistinctIds_example : Numbered id 0 chunks × DistinctIds chunks
unfolding chunk select_strategy run_strategy text_eqb strip lstrip is_space Fixed.split
    Fixed.windows Fixed.next_start Fixed.find_max_end Fixed.find_overlap_chars Fixed.window_overlap
    Fixed.bisect count encode fallback_encode make_chunk chunk_id decimal digits_onto
chunk-DistinctIds_example =
    chunk-DistinctIds lower cfg none text id [] none chunks (omega arith) refl

cfg-IsValid : IsValid cfg
unfolding ends_empty text_eqb
cfg-IsValid = record {
  size = omega arith;
  overlap = omega arith;
  input = omega arith;
  last_resort = refl;
}
