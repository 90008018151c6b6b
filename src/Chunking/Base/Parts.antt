-- ===== src/Chunking/Base/Parts.antt =====
-- The parts between separators: each takes its place in the text, and is split further.
use mathlib.Core.List.{append_assoc, append-nil}
use mkc.Prelude.{
  ℕ, ◌+◌, ◌≤◌, List, [], ◌∷◌, ◌++◌, length, length-append, All-append, ◌≡◌, refl, ap, ◌∙◌, sym,
  arith, Bool-cases, inl, inr,
}
use mkc.Prelude.Text.{Text, text_eqb, text_eqb→eq, join}
use mkc.Chunking.{Config}
use mkc.Chunking.Split.{split, join-split, split-cons}
use mkc.Chunking.Base.{Piece, place_parts, split_each}
use mkc.Chunking.Base.Tiles.{
  texts, Tiles, Bounded, Splits, texts-append, Tiles-append, Tiles-from, Tiles-to,
}

place_parts-whole :
    (sep glue : Text) (cursor : ℕ) (part : Text) (parts : List Text)
    → texts (place_parts sep glue cursor (part ∷ parts)) ≡ glue ++ join sep (part ∷ parts)
unfolding place_parts join
place_parts-whole sep glue cursor part [] = elim (Bool-cases (text_eqb (glue ++ part) [])) [
  | inl e ↦ rw e (sym (text_eqb→eq (glue ++ part) [] e))
  | inr e ↦ rw e (append-nil (glue ++ part))
]
place_parts-whole sep glue cursor part (next ∷ parts) =
    let cursor' = cursor + length (glue ++ part) in
    let ih = place_parts-whole sep sep cursor' next parts in
    let regroup = append_assoc glue part (sep ++ join sep (next ∷ parts)) in
    elim (Bool-cases (text_eqb (glue ++ part) [])) [
      | inl e ↦ rw e (
          ih
          ∙ ap (λ t. t ++ (sep ++ join sep (next ∷ parts))) (sym (text_eqb→eq (glue ++ part) [] e))
          ∙ regroup)
      | inr e ↦ rw e (ap (◌++◌ (glue ++ part)) ih ∙ regroup)
    ]

place_parts-Tiles :
    (sep glue : Text) (cursor : ℕ) (parts : List Text)
    → let ps = place_parts sep glue cursor parts in Tiles cursor ps (cursor + length (texts ps))
unfolding place_parts
place_parts-Tiles sep glue cursor [] = omega arith
place_parts-Tiles sep glue cursor (part ∷ parts) =
    let next = cursor + length (glue ++ part) in
    let ps = place_parts sep sep next parts in
    let ih = place_parts-Tiles sep sep next parts in
    elim (Bool-cases (text_eqb (glue ++ part) [])) [
      | inl e ↦
          let none_read : length (glue ++ part) ≡ 0 = ap length (text_eqb→eq (glue ++ part) [] e) in
          rw e (Tiles-to cursor ps _ _ (omega arith) (Tiles-from next cursor ps _ (omega arith) ih))
      | inr e ↦ rw e (
        refl,
        refl,
        Tiles-to next ps _ _ (omega (arith, length-append (glue ++ part) (texts ps))) ih,
      )
    ]

module _ (cfg : Config) (f : Text → ℕ → List Piece)
    (f-Splits : (t : Text) (s : ℕ) → Splits cfg t s (f t s)) where
  split_each-Splits :
      (ps : List Piece) (s e : ℕ)
      → Tiles s ps e
      → (texts (split_each f ps) ≡ texts ps)
        × Tiles s (split_each f ps) e
        × Bounded cfg (split_each f ps)
  unfolding split_each
  split_each-Splits [] s e t = (refl, t, tt)
  split_each-Splits (p ∷ ps) s e t =
      let (whole, tiles, bounded) = split_each-Splits ps p.stop e t.2 in
      let sub = f-Splits p.text p.start in
      let first : List Piece = f p.text p.start in
      (
        texts-append first (split_each f ps)
            ∙ ap (λ r. r ++ texts (split_each f ps)) sub.whole
            ∙ ap (◌++◌ p.text) whole,
        Tiles-append s first (split_each f ps) p.stop e
            (Tiles-from p.start s first p.stop t.0
              (Tiles-to p.start first _ p.stop (omega (arith, t.0, t.1)) sub.tiles))
            tiles,
        All-append (λ q. length q.text ≤ cfg.chunk_size) first (split_each f ps) sub.bounded
            bounded,
      )

  -- The pieces of all parts, before any merging.
  pub parts-Splits :
      (text : Text) (start : ℕ) (sep : Text)
      → 1 ≤ length sep
      → Splits cfg text start (split_each f (place_parts sep [] start (split text sep)))
  parts-Splits text start sep long =
      let (head, tail, shape) = split-cons sep text in
      let ps = place_parts sep [] start (split text sep) in
      let joined : join sep (head ∷ tail) ≡ text = rw (← shape) (join-split sep text long) in
      let all : texts ps ≡ text = rw shape (place_parts-whole sep [] start head tail ∙ joined) in
      let (whole, tiles, bounded) =
        split_each-Splits ps start (start + length text)
          (rw all at (place_parts-Tiles sep [] start (split text sep))) in
      record { whole = whole ∙ all; tiles = tiles; bounded = bounded }
