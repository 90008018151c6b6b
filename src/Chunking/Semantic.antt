-- ===== src/Chunking/Semantic.antt =====
-- ai-service/app/services/chunking/semantic_chunker.py
use mkc.Prelude.{
  ℕ, suc, ◌+◌, ◌≤◌, true, false, List, [], ◌∷◌, length, if◌then◌else◌, ◌≡◌, refl, ap, arith,
  Bool-cases, inl, inr, sym,
}
use mkc.Prelude.Text.{Text, text_eqb, text_eqb→eq, nonempty}
use mkc.Chunking.{Config, Estimator, Chunk, Metadata, default_separators, chunk_id, make_chunk}
use mkc.Chunking.Base.{Piece, split_text}
use mkc.Chunking.Base.Tiles.{Splits}
use mkc.Chunking.Base.SplitText.{split_text-Splits}

-- `self.config.separators or default_separators`
unfoldable pub separators_or_default : Config → List Text
separators_or_default cfg = if nonempty cfg.separators then cfg.separators else default_separators

module _ (cfg : Config) (est : Estimator) {V : Type 0} (resource_id : Text)
    (metadata : Metadata V) where
  -- The loop that turns pieces into chunks, numbered from `index`.
  unfoldable pub number_pieces : ℕ → List Piece → List (Chunk V)
  number_pieces index [] = []
  number_pieces index (p ∷ ps) =
      make_chunk cfg est p.text resource_id metadata index p.start p.stop
      ∷ number_pieces (suc index) ps

  -- `SemanticChunker.split`
  unfoldable pub split : Text → List (Chunk V)
  unfolding number_pieces separators_or_default
  split text =
      if text_eqb text []
      then []
      else number_pieces 0 (split_text cfg est text 0 (separators_or_default cfg) false)

-- What a chunk keeps of a piece.
abbrev pub piece_of : {V : Type 0} → Chunk V → Piece
piece_of c = record { text = c.text; start = c.start_pos; stop = c.end_pos }

abbrev pub pieces_of : {V : Type 0} → List (Chunk V) → List Piece
pieces_of [] = []
pieces_of (c ∷ cs) = piece_of c ∷ pieces_of cs

-- The chunks are numbered from `i`, and their identifiers are made of the resource and the number.
abbrev pub Numbered : {V : Type 0} → Text → ℕ → List (Chunk V) → Type 0
Numbered resource_id i [] = Unit
Numbered resource_id i (c ∷ cs) =
    (c.index ≡ i)
    × (c.id ≡ chunk_id resource_id i)
    × (c.resource_id ≡ resource_id)
    × Numbered resource_id (suc i) cs

start_eq : (text : Text) → text_eqb text [] ≡ true → ◌≡◌ {A = ℕ} 0 (0 + length text)
start_eq text h = omega (arith, ap length (text_eqb→eq text [] h))

module _ (cfg : Config) (est : Estimator) {V : Type 0} (resource_id : Text)
    (metadata : Metadata V) where
  pub pieces_of-number_pieces :
      (i : ℕ) (ps : List Piece) → pieces_of (number_pieces cfg est resource_id metadata i ps) ≡ ps
  unfolding number_pieces make_chunk
  pieces_of-number_pieces i [] = refl
  pieces_of-number_pieces i (p ∷ ps) = ap (◌∷◌ p) (pieces_of-number_pieces (suc i) ps)

  pub number_pieces-Numbered :
      (i : ℕ) (ps : List Piece)
      → Numbered resource_id i (number_pieces cfg est resource_id metadata i ps)
  unfolding number_pieces make_chunk
  number_pieces-Numbered i [] = tt
  number_pieces-Numbered i (p ∷ ps) = (refl, refl, refl, number_pieces-Numbered (suc i) ps)

  -- The chunks are numbered from 0; put together they are the text; they lie side by side at their
  -- positions in it, and none is longer than `chunk_size` characters, if that is positive.
  pub semantic_split-Splits :
      (text : Text)
      → 1 ≤ cfg.chunk_size
      → Numbered resource_id 0 (split cfg est resource_id metadata text)
        × Splits cfg text 0 (pieces_of (split cfg est resource_id metadata text))
  unfolding split
  semantic_split-Splits text one = elim (Bool-cases (text_eqb text [])) [
    | inl e ↦
        rw e (
          tt,
          record { whole = sym (text_eqb→eq text [] e); tiles = start_eq text e; bounded = tt },
        )
    | inr e ↦
        let ps = split_text cfg est text 0 (separators_or_default cfg) false in
        rw e (
          number_pieces-Numbered 0 ps,
          rw (pieces_of-number_pieces 0 ps) (split_text-Splits cfg est text 0 _ false one),
        )
  ]
