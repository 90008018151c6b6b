-- ===== src/Chunking/Fixed/Laws.antt =====
-- The windows that `FixedTokenChunker.split` makes of a text.
use mkc.Prelude.{
  ℕ, zero, suc, ◌+◌, ◌-◌, ◌≤◌, ◌<◌, List, [], ◌∷◌, length, slice, ltb, leb, leb→le, ltb→lt, lt→ltb,
  ◌⊎◌, inl, inr, ◌≡◌, refl, arith, Bool-cases,
}
use mkc.Prelude.Text.{Text, text_eqb, text_eqb→eq, length_pos}
use mkc.Chunking.{Config, Estimator, Chunk, Metadata, count, make_chunk, chunk_id}
use mkc.Chunking.Fixed.{
  find_max_end, find_overlap_chars, window_overlap, next_start, windows, split,
}
use mkc.Chunking.Fixed.Search.{find_max_end-WindowEnd, find_overlap_chars-within}

-- What a window may share with the one before it, which starts at `start` and ends at `end`.
pub record Follows (cfg : Config) (est : Estimator) (text : Text) (start end next : ℕ)
    : Type 0 where
  pub forward : start < next
  pub no_gap : next ≤ end
  pub overlap :
      (next ≡ suc start) ⊎ (next ≡ end) ⊎ (count est (slice next end text) ≤ window_overlap cfg est)

next_start-Follows :
    (cfg : Config) (est : Estimator) (text : Text) (start end : ℕ)
    → start < end
    → Follows cfg est text start end (next_start cfg est text start end)
unfolding next_start
next_start-Follows cfg est text start end lt =
    let k = window_overlap cfg est in
    let n = find_overlap_chars cfg est text start end k in
    let (bound, within) = find_overlap_chars-within cfg est text start end k in
    elim (Bool-cases (leb (end - n) start)) [
      | inl e ↦
          rw e (record { forward = omega arith; no_gap = omega arith; overlap = inl (omega arith) })
      | inr e ↦ rw e (record {
        forward = ground arith;
        no_gap = omega arith;
        overlap = elim within [ inl none ↦ inr (inl (omega arith)) | inr few ↦ inr (inr few) ];
      })
    ]

module _ (cfg : Config) (est : Estimator) {V : Type 0} (text resource_id : Text) where
  -- One window: a part of the text that is not empty, within the limit on tokens, and not to be
  -- made longer at its end.
  pub record IsWindow (c : Chunk V) : Type 0 where
    pub of_resource : c.resource_id ≡ resource_id
    pub id : c.id ≡ chunk_id resource_id c.index
    pub part : c.text ≡ slice c.start_pos c.end_pos text
    pub occupied : c.start_pos < c.end_pos
    pub inside : c.end_pos ≤ length text
    pub counted : c.token_count ≡ count est c.text
    pub limited : c.token_count ≤ cfg.chunk_size
    pub largest :
        (c.end_pos ≡ length text)
        ⊎ (cfg.chunk_size < count est (slice c.start_pos (suc c.end_pos) text))

  -- The windows from the one numbered `i` on, after one that starts at `start` and ends at `end`.
  abbrev pub Chain : ℕ → ℕ → ℕ → List (Chunk V) → Type 0
  Chain start end i [] = end ≡ length text
  Chain start end i (c ∷ cs) =
      (c.index ≡ i)
      × Follows cfg est text start end c.start_pos
      × IsWindow c
      × Chain c.start_pos c.end_pos (suc i) cs

  -- The windows of a text: numbered from 0, the first at the start of the text, each of the others
  -- joined to the one before, and the last at the end of the text.
  abbrev pub Windows : List (Chunk V) → Type 0
  Windows [] = text ≡ []
  Windows (c ∷ cs) =
      (c.index ≡ 0) × (c.start_pos ≡ 0) × IsWindow c × Chain c.start_pos c.end_pos 1 cs

  module _ (metadata : Metadata V)
      (single : (i : ℕ) → i < length text → count est (slice i (suc i) text) ≤ cfg.chunk_size) where
    find_max_end-gt :
        (start : ℕ) → start < length text → start < find_max_end cfg est text start cfg.chunk_size
    find_max_end-gt start lt =
        let w = find_max_end-WindowEnd cfg est text start cfg.chunk_size (omega arith) in
        let end = find_max_end cfg est text start cfg.chunk_size in
        elim (Bool-cases (ltb start end)) [
          | inl e ↦ ltb→lt _ _ e
          | inr e ↦
              let stuck : end ≡ start = ground (arith, w.from) in
              elim w.largest [
                | inl all ↦ absurd (omega arith)
                | inr big ↦ absurd (omega (arith, single start lt, rw stuck at big))
              ]
        ]

    window_chunk : ℕ → ℕ → Chunk V
    window_chunk start i =
        let end = find_max_end cfg est text start cfg.chunk_size in
        make_chunk cfg est (slice start end text) resource_id metadata i start end

    window_chunk-IsWindow : (start i : ℕ) → start < length text → IsWindow (window_chunk start i)
    unfolding window_chunk make_chunk
    window_chunk-IsWindow start i lt =
        let w = find_max_end-WindowEnd cfg est text start cfg.chunk_size (omega arith) in
        record {
          of_resource = refl;
          id = refl;
          part = refl;
          occupied = find_max_end-gt start lt;
          inside = w.upto;
          counted = refl;
          limited = elim w.within [
            | inl e ↦ absurd (omega (arith, find_max_end-gt start lt))
            | inr few ↦ few
          ];
          largest = w.largest;
        }

    windows-Chain :
        (f start i : ℕ)
        → start < length text
        → length text ≤ f + start
        → (cs : List (Chunk V)) × (windows cfg est text resource_id metadata f start i
            ≡ window_chunk start i ∷ cs)
          × Chain start (find_max_end cfg est text start cfg.chunk_size) (suc i) cs
    unfolding windows window_chunk make_chunk
    windows-Chain zero start i lt fuel = absurd (omega arith)
    windows-Chain (suc f) start i lt fuel =
        let end = find_max_end cfg est text start cfg.chunk_size in
        let next = next_start cfg est text start end in
        let w = find_max_end-WindowEnd cfg est text start cfg.chunk_size (omega arith) in
        let started = lt→ltb _ _ lt in
        elim (Bool-cases (leb (length text) end)) [
          | inl done ↦ ([], rw (started, done), omega (arith, w.upto, leb→le _ _ done))
          | inr more ↦
              let after = next_start-Follows cfg est text start end (find_max_end-gt start lt) in
              let inside : next < length text = ground (arith, after.no_gap) in
              let (cs, rest, chain) =
                windows-Chain f next (suc i) inside (omega (arith, after.forward)) in
              (
                window_chunk next (suc i) ∷ cs,
                rw (started, more, rest),
                (refl, after, window_chunk-IsWindow next (suc i) inside, chain),
              )
        ]

    -- With characters that each fit the limit, the windows number from 0, are not empty, stay
    -- within `chunk_size` tokens, leave no gap and reach both ends of the text; two neighbours share
    -- at most the tokens of the overlap, unless the second starts one character after the first.
    pub split-Windows : Windows (split cfg est text resource_id metadata)
    unfolding split window_chunk make_chunk
    split-Windows = elim (Bool-cases (text_eqb text [])) [
      | inl e ↦ rw e (text_eqb→eq text [] e)
      | inr e ↦
          let (cs, rest, chain) =
            windows-Chain (length text) 0 0 (length_pos text e) (omega arith) in
          rw (e, rest) (refl, refl, window_chunk-IsWindow 0 0 (length_pos text e), chain)
    ]
