-- ===== src/Citation.antt =====
-- ai-service/app/services/citation_formatter.py, citation_validator.py and citation_service.py: the
-- markers of an answer become numbered citations of the retrieved chunks. Of a citation the fields are
-- modelled that do not come from the metadata of its chunk. The pattern of a marker is the default one.
pub mod Scan
pub mod Format
pub mod Validate
use mkc.Prelude.{
  ℕ, zero, suc, ◌+◌, ◌-◌, ◌*◌, Bool, true, false, ◌&&◌, ◌||◌, not, Option, none, some, List, [],
  ◌∷◌, ◌++◌, map, length, take, get_elem?, ltb, leb, nat_eqb, if◌then◌else◌, ◌≡◌,
}
use mkc.Prelude.Text.{Text, codes, text_in, nonempty}
use mkc.Prelude.Decimal.{decimal}
use mkc.Exceptions.{Exception, Result, ok, raise, other, ◌>>=◌}
use mkc.Models.{RetrievalChunk}
use mkc.Retrieval.{get_or}

-- `Citation`
pub record Citation (F : Type 0) : Type 0 where
  pub index : ℕ
  pub chunk_id : Text
  pub resource_id : Text
  pub original_index : Option ℕ
  pub score : F
  pub snippet : Text

-- `CitationResult`
pub record CitationResult (F : Type 0) : Type 0 where
  pub answer : Text
  pub citations : List (Citation F)

-- A match of the pattern, by its digits, or a character outside every match.
pub data Piece : Type 0 where
  char : ℕ → Piece
  marker : Text → Piece

-- What a match matches
unfoldable pub marker_text : Text → Text
marker_text digits = codes "[^" ++ (digits ++ codes "]")

unfoldable pub pieces_text : List Piece → Text
pieces_text [] = []
pieces_text (char c ∷ pieces) = c ∷ pieces_text pieces
pieces_text (marker digits ∷ pieces) = marker_text digits ++ pieces_text pieces

unfoldable pub markers : List Piece → List Text
markers [] = []
markers (char c ∷ pieces) = markers pieces
markers (marker digits ∷ pieces) = digits ∷ markers pieces

-- Entries of `marker_replacements`; `used_indices` holds its keys.
unfoldable pub find : ℕ → List (ℕ × ℕ) → Option ℕ
find n [] = none
find n ((m, r) ∷ table) = if nat_eqb n m then some r else find n table

-- `_citation_from_chunk`
unfoldable pub citation_from_chunk : {F V : Type 0} → ℕ → ℕ → ℕ → RetrievalChunk F V → Citation F
citation_from_chunk max_chars index original_index chunk = record {
  index = index;
  chunk_id = chunk.chunk_id;
  resource_id = chunk.resource_id;
  original_index = if nat_eqb original_index index then none else some original_index;
  score = chunk.score;
  snippet = take max_chars chunk.text;
}

-- `citations` and `marker_replacements`
pub record State (F : Type 0) : Type 0 where
  pub citations : List (Citation F)
  pub table : List (ℕ × ℕ)

-- `CitationValidator.validate`; `count` is `len(valid)`.
unfoldable pub validate_from :
    {F : Type 0} → ℕ → List Text → ℕ → List (Citation F) → List (Citation F)
validate_from max_citations authorized count [] = []
validate_from max_citations authorized count (c ∷ cs) =
    let unauthorized = nonempty authorized && not (text_in c.resource_id authorized) in
    let valid = if unauthorized then count else suc count in
    let rest = validate_from max_citations authorized valid cs in
    if unauthorized then rest else if leb max_citations valid then c ∷ [] else c ∷ rest

-- `digit` gives the value of a Unicode decimal digit, which `\d` matches and `int` reads.
module _ (digit : ℕ → Option ℕ) where
  abbrev is_digit : ℕ → Bool
  is_digit c = elim (digit c) [ none ↦ false | some d ↦ true ]

  -- `\d*`, and the rest
  unfoldable pub read_digits : Text → Text × Text
  read_digits [] = ([], [])
  read_digits (c ∷ s) =
      let rest = read_digits s in
      let more : Text × Text = (c ∷ rest.0, rest.1) in
      let stop : Text × Text = ([], c ∷ s) in if is_digit c then more else stop

  -- `(\d+)\]`, where the text continues behind `[^`
  unfoldable pub match_digits : Text → Option Text
  match_digits s =
      let (digits, rest) = read_digits s in
      elim rest [
        | [] ↦ none
        | c ∷ _ ↦ if nonempty digits && nat_eqb c b']' then some digits else none
      ]

  -- A match at the beginning of the text
  unfoldable pub match_marker : Text → Option Text
  match_marker (a ∷ b ∷ s) = if nat_eqb a b'[' && nat_eqb b b'^' then match_digits s else none
  match_marker _ = none

  -- `finditer`: the first number says how many characters the last match still covers.
  unfoldable pub scan_from : ℕ → Text → List Piece
  scan_from n [] = []
  scan_from (suc n) (c ∷ s) = scan_from n s
  scan_from zero (c ∷ s) = elim (match_marker (c ∷ s)) [
    | none ↦ char c ∷ scan_from zero s
    | some digits ↦ marker digits ∷ scan_from (length digits + 2) s
  ]

  abbrev pub scan : Text → List Piece
  scan s = scan_from 0 s

  -- `int(digits)`, which Python refuses above 4300 digits
  unfoldable pub value_from : ℕ → Text → ℕ
  value_from n [] = n
  value_from n (c ∷ s) = value_from (n * 10 + get_or (digit c) 0) s

  unfoldable pub read_int : Text → Result ℕ
  unfolding value_from
  read_int digits = if ltb 4300 (length digits) then raise other else ok (value_from 0 digits)

  module _ {F V : Type 0} (max_chars : ℕ) (chunks : List (RetrievalChunk F V)) where
    -- The body of the loop for the number `index`
    unfoldable pub add_citation : ℕ → State F → Result (State F)
    add_citation index st =
        let number = length st.citations + 1 in
        let added : Result (State F) = elim (get_elem? chunks (index - 1)) [
          | none ↦ raise other
          | some chunk ↦ ok (record {
            citations = st.citations ++ (citation_from_chunk max_chars number index chunk ∷ []);
            table = (index, number) ∷ st.table;
          })
        ] in
        elim (find index st.table) [
          | some _ ↦ ok st
          | none ↦ if ltb index 1 || ltb (length chunks) index then ok st else added
        ]

    -- The loop of `format`
    unfoldable pub number_markers : List Text → State F → Result (State F)
    number_markers [] st = ok st
    number_markers (digits ∷ rest) st =
        read_int digits >>= λ index. add_citation index st >>= number_markers rest

  -- `replace` of `_renumber_answer`
  unfoldable pub renumber : List (ℕ × ℕ) → Piece → Piece
  renumber table (char c) = char c
  renumber table (marker digits) = elim (find (value_from 0 digits) table) [
    | none ↦ marker digits
    | some r ↦ marker (decimal r)
  ]

  -- `_renumber_answer`
  unfoldable pub renumber_answer : Text → List (ℕ × ℕ) → Text
  renumber_answer answer table =
      if nonempty table then pieces_text (map (renumber table) (scan answer)) else answer

  -- `CitationFormatter.format`
  unfoldable pub format :
      {F V : Type 0} → ℕ → Text → List (RetrievalChunk F V) → Result (CitationResult F)
  format max_chars answer chunks =
      number_markers max_chars chunks (markers (scan answer))
        (record { citations = []; table = [] })
      >>= λ st. ok (record { answer = renumber_answer answer st.table; citations = st.citations })

  -- `CitationService.build_citations`
  unfoldable pub build_citations :
      {F V : Type 0} → ℕ → ℕ → Text → List (RetrievalChunk F V) → List Text → CitationResult F
  build_citations max_chars max_citations answer chunks authorized =
      elim (format max_chars answer chunks) [
        | raise e ↦ record { answer = answer; citations = [] }
        | ok formatted ↦ record {
          answer = formatted.answer;
          citations = validate_from max_citations authorized 0 formatted.citations;
        }
      ]
