-- ===== src/Chunking/Service.antt =====
-- ai-service/app/services/chunking/chunking_service.py: the choice of a strategy.
use mkc.Prelude.{Option, none, some, List, if◌then◌else◌, ◌≤◌, ◌≡◌, Bool-cases, inl, inr, arith}
use mkc.Prelude.Text.{Text, codes, text_eqb, nonempty, strip}
use mkc.Exceptions.{Result, ok, raise, invalid_chunking_strategy}
use mkc.Chunking.{Config, Estimator, Chunk, Metadata}
use mkc.Chunking.Fixed
use mkc.Chunking.Fixed.Numbers.{split-Numbered}
use mkc.Chunking.Paragraph
use mkc.Chunking.Paragraph.Ink.{paragraph_split-ink}
use mkc.Chunking.Semantic
use mkc.Chunking.Semantic.{Numbered, semantic_split-Splits}
use mkc.Chunking.Ids.{DistinctIds, Numbered-DistinctIds}

abbrev pub strategy_paragraph : Text
strategy_paragraph = codes "paragraph"

abbrev pub strategy_fixed_token : Text
strategy_fixed_token = codes "fixed_token"

abbrev pub strategy_semantic : Text
strategy_semantic = codes "semantic"

-- `lower` is `str.lower`, which maps all of Unicode.
module _ (lower : Text → Text) (cfg : Config) (est : Estimator) where
  -- `(strategy or self.config.default_strategy).strip().lower()`
  unfoldable pub select_strategy : Option Text → Text
  select_strategy none = lower (strip cfg.default_strategy)
  select_strategy (some strategy) =
      lower (strip (if nonempty strategy then strategy else cfg.default_strategy))

  -- `self._chunkers.get(selected)` and the call of its `split`
  unfoldable pub run_strategy :
      {V : Type 0} → Text → Text → Text → Metadata V → Result (List (Chunk V))
  run_strategy selected text resource_id metadata =
      if text_eqb selected strategy_paragraph
      then ok (Paragraph.split cfg est resource_id metadata text)
      else if text_eqb selected strategy_fixed_token
      then ok (Fixed.split cfg est text resource_id metadata)
      else if text_eqb selected strategy_semantic
      then ok (Semantic.split cfg est resource_id metadata text)
      else raise (invalid_chunking_strategy selected)

  -- `ChunkingService.chunk`
  unfoldable pub chunk :
      {V : Type 0} → Text → Text → Metadata V → Option Text → Result (List (Chunk V))
  unfolding select_strategy run_strategy
  chunk text resource_id metadata strategy =
      run_strategy (select_strategy strategy) text resource_id metadata

chunk-Numbered :
    (lower : Text → Text) (cfg : Config) (est : Estimator) {V : Type 0} (text resource_id : Text)
    (metadata : Metadata V) (strategy : Option Text) (cs : List (Chunk V))
    → 1 ≤ cfg.chunk_size
    → chunk lower cfg est text resource_id metadata strategy ≡ ok cs
    → Numbered resource_id 0 cs
unfolding chunk
chunk-Numbered lower cfg est text resource_id metadata strategy cs one h =
    let s = select_strategy lower cfg est strategy in
    elim (Bool-cases (text_eqb s strategy_paragraph)) [
      | inl e ↦
          let same : Paragraph.split cfg est resource_id metadata text ≡ cs = ground (arith, h) in
          rw (← same) (paragraph_split-ink cfg est one resource_id metadata text).0
      | inr e ↦ elim (Bool-cases (text_eqb s strategy_fixed_token)) [
        | inl f ↦
            let same : Fixed.split cfg est text resource_id metadata ≡ cs = ground (arith, h) in
            rw (← same) (split-Numbered cfg est text resource_id metadata)
        | inr f ↦ elim (Bool-cases (text_eqb s strategy_semantic)) [
          | inl g ↦
              let same : Semantic.split cfg est resource_id metadata text ≡ cs =
                ground (arith, h) in
              rw (← same) (semantic_split-Splits cfg est resource_id metadata text one).0
          | inr g ↦ absurd (ground (arith, h))
        ]
      ]
    ]

-- Whatever the strategy, chunks that `chunk` returns are numbered from 0, and no two of them have
-- the same identifier, if `chunk_size` is positive.
pub chunk-DistinctIds :
    (lower : Text → Text) (cfg : Config) (est : Estimator) {V : Type 0} (text resource_id : Text)
    (metadata : Metadata V) (strategy : Option Text) (cs : List (Chunk V))
    → 1 ≤ cfg.chunk_size
    → chunk lower cfg est text resource_id metadata strategy ≡ ok cs
    → Numbered resource_id 0 cs × DistinctIds cs
chunk-DistinctIds lower cfg est text resource_id metadata strategy cs one h =
    let n = chunk-Numbered lower cfg est text resource_id metadata strategy cs one h in
    (n, Numbered-DistinctIds resource_id 0 cs n)
