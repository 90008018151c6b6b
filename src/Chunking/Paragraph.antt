-- ===== src/Chunking/Paragraph.antt =====
-- ai-service/app/services/chunking/paragraph_chunker.py: blank lines part the text.
pub mod Ink
use mkc.Prelude.{
  ℕ, zero, suc, ◌+◌, ◌-◌, Option, none, some, List, [], ◌∷◌, ◌++◌, length, nat_eqb, if◌then◌else◌,
  true,
}
use mkc.Prelude.Text.{Text, codes, text_eqb, is_space, strip}
use mkc.Chunking.{Config, Estimator, Chunk, Metadata}
use mkc.Chunking.Base.{Piece, size_exceeded, split_text}
use mkc.Chunking.Semantic.{number_pieces}

-- `\s*\n` at the head of a text, greedy: the number of characters up to the last line feed of the
-- white space there.
unfoldable pub last_newline : Text → Option ℕ
unfolding is_space
last_newline [] = none
last_newline (c ∷ s) =
    let later : Option ℕ = elim (last_newline s) [
      | some n ↦ some (suc n)
      | none ↦ if nat_eqb c b'\n' then some 1 else none
    ] in
    if is_space c then later else none

-- `\n\s*\n` at the head of a text: the number of its characters behind the first.
unfoldable pub match_gap : Text → Option ℕ
unfolding last_newline
match_gap [] = none
match_gap (c ∷ s) = if nat_eqb c b'\n' then last_newline s else none

-- `if segment.strip()`
unfoldable pub keep_segment : Text → ℕ → ℕ → List Piece → List Piece
unfolding strip
keep_segment segment start stop rest =
    if text_eqb (strip segment) []
    then rest
    else record { text = segment; start = start; stop = stop } ∷ rest

-- The loop over `finditer`. `current` is the segment that is being read, from `cursor` to `pos`, and
-- `skip` counts the characters of a match that are still to be passed over.
unfoldable pub segments_from : ℕ → ℕ → ℕ → Text → Text → List Piece
segments_from skip cursor pos current [] = keep_segment current cursor pos []
segments_from (suc k) cursor pos current (c ∷ s) = segments_from k (suc pos) (suc pos) current s
segments_from zero cursor pos current (c ∷ s) =
    let on = segments_from zero cursor (suc pos) (current ++ (c ∷ [])) s in
    elim (match_gap (c ∷ s)) [
      | some n ↦ keep_segment current cursor pos (segments_from n (suc pos) (suc pos) [] s)
      | none ↦ on
    ]

abbrev pub sentence_separators : List Text
sentence_separators =
    codes "\n"
    ∷ codes "。"
    ∷ codes "！"
    ∷ codes "？"
    ∷ codes "；"
    ∷ codes "，"
    ∷ codes " "
    ∷ codes ""
    ∷ []

module _ (cfg : Config) (est : Estimator) where
  -- The pieces of one paragraph.
  unfoldable pub paragraph_pieces : Piece → List Piece
  paragraph_pieces p =
      if size_exceeded cfg est p.text
      then split_text cfg est p.text p.start sentence_separators true
      else record { text = p.text; start = p.start; stop = p.start + length p.text } ∷ []

  unfoldable pub all_pieces : List Piece → List Piece
  all_pieces [] = []
  all_pieces (p ∷ ps) = paragraph_pieces p ++ all_pieces ps

  -- `ParagraphChunker.split`
  unfoldable pub split : {V : Type 0} → Text → Metadata V → Text → List (Chunk V)
  split resource_id metadata text =
      if text_eqb text []
      then []
      else number_pieces cfg est resource_id metadata 0 (all_pieces (segments_from 0 0 0 [] text))
