-- ===== src/Chunking/Base.antt =====
-- ai-service/app/services/chunking/base_chunker.py: the splitting that the chunkers share.
pub mod Tiles
mod Parts
pub mod SplitText
use mkc.Prelude.{
  ℕ, zero, suc, ◌+◌, Bool, true, ◌&&◌, ◌||◌, List, [], ◌∷◌, ◌++◌, length, slice, ltb, leb, min,
  if◌then◌else◌,
}
use mkc.Prelude.Text.{Text, text_eqb}
use mkc.Chunking.{Config, Estimator, count}
use mkc.Chunking.Split.{split}

-- The tuple `(text, start, end)`.
pub record Piece : Type 0 where
  pub text : Text
  pub start : ℕ
  pub stop : ℕ

-- The loop over `raw_parts`; `glue` is what stands in front of a part: nothing for the first.
unfoldable pub place_parts : Text → Text → ℕ → List Text → List Piece
place_parts sep glue cursor [] = []
place_parts sep glue cursor (part ∷ parts) =
    let piece_text = glue ++ part in
    let next = cursor + length piece_text in
    let rest = place_parts sep sep next parts in
    if text_eqb piece_text []
    then rest
    else record { text = piece_text; start = cursor; stop = next } ∷ rest

-- The loop that splits each piece further and collects the results.
unfoldable pub split_each : (Text → ℕ → List Piece) → List Piece → List Piece
split_each f [] = []
split_each f (piece ∷ pieces) = f piece.text piece.start ++ split_each f pieces

module _ (cfg : Config) (est : Estimator) where
  -- `_size_exceeded`
  unfoldable pub size_exceeded : Text → Bool
  size_exceeded text = ltb cfg.chunk_size (length text) || ltb cfg.chunk_size (count est text)

  -- The loop of `_split_chars`, on fuel. A round moves `pos` forward, since `chunk_size` is positive.
  unfoldable pub split_chars_from : ℕ → Text → ℕ → ℕ → List Piece
  split_chars_from zero text start_pos pos = []
  split_chars_from (suc f) text start_pos pos =
      let end = min (pos + cfg.chunk_size) (length text) in
      let rest =
        record { text = slice pos end text; start = start_pos + pos; stop = start_pos + end }
        ∷ split_chars_from f text start_pos end in
      if ltb pos (length text) then rest else []

  unfoldable pub split_chars : Text → ℕ → List Piece
  unfolding split_chars_from
  split_chars text start_pos = split_chars_from (length text + 1) text start_pos 0

  -- The test of `_merge_pieces`
  unfoldable pub fits : Text → Bool
  fits combined = leb (length combined) cfg.chunk_size && leb (count est combined) cfg.chunk_size

  -- The loop of `_merge_pieces`; `prev` is `merged[-1]`.
  unfoldable pub merge_from : Piece → List Piece → List Piece
  unfolding fits
  merge_from prev [] = prev ∷ []
  merge_from prev (piece ∷ pieces) =
      let combined = prev.text ++ piece.text in
      let joined =
        merge_from (record { text = combined; start = prev.start; stop = piece.stop }) pieces in
      let apart = prev ∷ merge_from piece pieces in if fits combined then joined else apart

  unfoldable pub merge_pieces : List Piece → List Piece
  unfolding merge_from
  merge_pieces [] = []
  merge_pieces (piece ∷ pieces) = merge_from piece pieces

  -- `_split_text`
  unfoldable pub split_text : Text → ℕ → List Text → Bool → List Piece
  unfolding size_exceeded split_chars merge_pieces place_parts split_each
  split_text text start_pos [] merge_across =
      if text_eqb text []
      then []
      else if size_exceeded text
      then split_chars text start_pos
      else record { text = text; start = start_pos; stop = start_pos + length text } ∷ []
  split_text text start_pos (sep ∷ separators) merge_across =
      let pieces = place_parts sep [] start_pos (split text sep) in
      let sub_pieces = split_each (λ t p. split_text t p separators true) pieces in
      let whole = record { text = text; start = start_pos; stop = start_pos + length text } ∷ [] in
      let parts =
        if text_eqb sep []
        then split_chars text start_pos
        else if merge_across
        then merge_pieces sub_pieces
        else sub_pieces in
      if text_eqb text [] then [] else if size_exceeded text then parts else whole
