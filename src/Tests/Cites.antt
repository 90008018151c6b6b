-- ===== src/Tests/Cites.antt =====
-- Witnesses for the citations: an answer that names the second chunk, a chunk that is not there, and
-- the first chunk.
use mkc.Prelude.{
  ℕ, ◌-◌, ◌&&◌, Option, none, some, List, [], ◌∷◌, ◌≡◌, refl, map, leb, if◌then◌else◌, All,
}
use mkc.Prelude.Text.{Text, codes}
use mkc.Prelude.Decimal.{decimal, digits_onto}
use mkc.Models.{RetrievalChunk}
use mkc.Retrieval.{get_or}
use mkc.Citation.{
  CitationResult, pieces_text, marker_text, markers, find, citation_from_chunk, read_digits,
  match_digits, match_marker, scan_from, scan, value_from, read_int, add_citation, number_markers,
  renumber, renumber_answer, format,
}
use mkc.Citation.Format.{Numbered, OfChunk, IsRenumbered, format-IsRenumbered}
use mkc.Tests.{value_of}

abbrev digit : ℕ → Option ℕ
digit c = if leb b'0' c && leb c b'9' then some (c - b'0') else none

abbrev chunk : ℕ → RetrievalChunk ℕ ℕ
chunk n = record {
  chunk_id = n ∷ [];
  resource_id = n ∷ [];
  text = codes "text";
  score = 1;
  metadata = [];
}

abbrev chunks : List (RetrievalChunk ℕ ℕ)
chunks = chunk 1 ∷ chunk 2 ∷ []

abbrev answer : Text
answer = codes "x[^2]y[^7][^1]"

abbrev result : CitationResult ℕ
result = value_of (format digit 3 answer chunks) (record { answer = []; citations = [] })

format-IsRenumbered_example :
    Numbered 1 result.citations
    × All (OfChunk 3 chunks) result.citations
    × (table : List (ℕ × ℕ)) × (result.answer
        ≡ pieces_text (map (renumber digit table) (scan digit answer)))
    × All (IsRenumbered 3 chunks digit result table) (markers (scan digit answer))
unfolding format number_markers read_int value_from add_citation find citation_from_chunk
    renumber_answer renumber pieces_text marker_text markers scan_from match_marker match_digits
    read_digits decimal digits_onto get_or
format-IsRenumbered_example = format-IsRenumbered 3 chunks digit answer result refl
