-- ===== src/Chunking/Base/SplitText.antt =====
-- What `_split_text` keeps: the text, the positions and the limit on characters.
use mathlib.Core.List.{append-nil}
use mkc.Prelude.{
  ℕ, ◌+◌, ◌≤◌, Bool, true, false, List, [], ◌∷◌, length, ◌≡◌, refl, sym, arith, Bool-cases, inl,
  inr,
}
use mkc.Prelude.Text.{Text, text_eqb, text_eqb→eq, length_pos}
use mkc.Chunking.{Config, Estimator}
use mkc.Chunking.Base.{size_exceeded, split_text}
use mkc.Chunking.Base.Tiles.{Splits, split_chars-Splits, merge_pieces-Splits}
use mkc.Chunking.Base.Parts.{parts-Splits}

one_piece-Splits :
    (cfg : Config) (est : Estimator) (text : Text) (start : ℕ)
    → size_exceeded cfg est text ≡ false
    → Splits cfg text start (record { text = text; start = start; stop = start + length text } ∷ [])
unfolding size_exceeded
one_piece-Splits cfg est text start h = record {
  whole = append-nil text;
  tiles = (refl, refl, refl);
  bounded = (ground arith, tt);
}

empty-Splits : (cfg : Config) (text : Text) (start : ℕ) → text ≡ [] → Splits cfg text start []
empty-Splits cfg text start h = record { whole = sym h; tiles = rw h (omega arith); bounded = tt }

-- The pieces of `_split_text`, put together, are the text; they lie side by side at their
-- positions in it, and none is longer than `chunk_size` characters. It holds for any encoder, any
-- separators and both values of `merge_across`, if `chunk_size` is positive.
pub split_text-Splits :
    (cfg : Config) (est : Estimator) (text : Text) (start : ℕ) (separators : List Text)
    (merge_across : Bool)
    → 1 ≤ cfg.chunk_size
    → Splits cfg text start (split_text cfg est text start separators merge_across)
unfolding split_text
split_text-Splits cfg est text start [] merge_across one = elim (Bool-cases (text_eqb text [])) [
  | inl e ↦ rw e (empty-Splits cfg text start (text_eqb→eq text [] e))
  | inr e ↦ elim (Bool-cases (size_exceeded cfg est text)) [
    | inl big ↦ rw (e, big) (split_chars-Splits cfg est text start one)
    | inr small ↦ rw (e, small) (one_piece-Splits cfg est text start small)
  ]
]
split_text-Splits cfg est text start (sep ∷ separators) merge_across one =
    let rest =
      parts-Splits cfg (λ t s. split_text cfg est t s separators true)
        (λ t s. split_text-Splits cfg est t s separators true one) text start sep in
    elim (Bool-cases (text_eqb text [])) [
      | inl e ↦ rw e (empty-Splits cfg text start (text_eqb→eq text [] e))
      | inr e ↦ elim (Bool-cases (size_exceeded cfg est text)) [
        | inl big ↦ elim (Bool-cases (text_eqb sep [])) [
          | inl last ↦ rw (e, big, last) (split_chars-Splits cfg est text start one)
          | inr more ↦ elim (Bool-cases merge_across) [
            | inl m ↦
                rw (e, big, more, m)
                  (merge_pieces-Splits cfg est text start _ (rest (length_pos sep more)))
            | inr m ↦ rw (e, big, more, m) (rest (length_pos sep more))
          ]
        ]
        | inr small ↦ rw (e, small) (one_piece-Splits cfg est text start small)
      ]
    ]
