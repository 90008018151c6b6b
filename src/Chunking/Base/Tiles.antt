-- ===== src/Chunking/Base/Tiles.antt =====
-- Pieces that lie side by side, and the two steps that make them: cutting into windows and merging.
use mathlib.Core.List.{append_assoc}
use mkc.Prelude.{
  ℕ, zero, suc, ◌+◌, ◌≤◌, ◌<◌, min, List, [], ◌∷◌, ◌++◌, length, drop, slice, length-append,
  length-slice, slice-append-drop, drop_all, ltb, All, ◌≡◌, refl, ap, ◌∙◌, sym, arith, Bool-cases,
  inl, inr,
}
use mkc.Prelude.Text.{Text}
use mkc.Chunking.{Config, Estimator}
use mkc.Chunking.Base.{Piece, split_chars_from, split_chars, fits, merge_from, merge_pieces}

-- The texts of the pieces, one after the other.
abbrev pub texts : List Piece → Text
texts [] = []
texts (p ∷ ps) = p.text ++ texts ps

-- The pieces lie side by side from `s` to `e`, each as long as its text.
abbrev pub Tiles : ℕ → List Piece → ℕ → Type 0
Tiles s [] e = s ≡ e
Tiles s (p ∷ ps) e = (p.start ≡ s) × (p.stop ≡ s + length p.text) × Tiles p.stop ps e

abbrev pub Bounded : Config → List Piece → Type 0
Bounded cfg = All (λ p. length p.text ≤ cfg.chunk_size)

pub record Splits (cfg : Config) (text : Text) (start : ℕ) (ps : List Piece) : Type 0 where
  pub whole : texts ps ≡ text
  pub tiles : Tiles start ps (start + length text)
  pub bounded : Bounded cfg ps

pub texts-append : (xs ys : List Piece) → texts (xs ++ ys) ≡ texts xs ++ texts ys
texts-append [] ys = refl
texts-append (x ∷ xs) ys =
    ap (◌++◌ x.text) (texts-append xs ys) ∙ sym (append_assoc x.text (texts xs) (texts ys))

pub Tiles-append :
    (s : ℕ) (xs ys : List Piece) (m e : ℕ) → Tiles s xs m → Tiles m ys e → Tiles s (xs ++ ys) e
Tiles-append s [] ys m e h k = rw h k
Tiles-append s (x ∷ xs) ys m e h k = (h.0, h.1, Tiles-append x.stop xs ys m e h.2 k)

pub Tiles-from : (s t : ℕ) (xs : List Piece) (e : ℕ) → s ≡ t → Tiles s xs e → Tiles t xs e
Tiles-from s t [] e p h = omega arith
Tiles-from s t (x ∷ xs) e p h = (omega arith, omega arith, h.2)

pub Tiles-to : (s : ℕ) (xs : List Piece) (d e : ℕ) → d ≡ e → Tiles s xs d → Tiles s xs e
Tiles-to s xs d e p h = rw (sym p) h

module _ (cfg : Config) (est : Estimator) where
  split_chars_from-Splits :
      (f : ℕ) (text : Text) (start pos : ℕ)
      → 1 ≤ cfg.chunk_size
      → pos ≤ length text
      → length text < f + pos
      → (texts (split_chars_from cfg est f text start pos) ≡ drop pos text)
        × Tiles (start + pos) (split_chars_from cfg est f text start pos) (start + length text)
        × Bounded cfg (split_chars_from cfg est f text start pos)
  unfolding split_chars_from
  split_chars_from-Splits zero text start pos one within fuel = absurd (omega arith)
  split_chars_from-Splits (suc f) text start pos one within fuel =
      elim (Bool-cases (ltb pos (length text))) [
        | inl more ↦
            let end = min (pos + cfg.chunk_size) (length text) in
            let (whole, tiles, bounded) =
              split_chars_from-Splits f text start end one (omega arith) (ground arith) in
            rw more (
              ap (◌++◌ (slice pos end text)) whole ∙ slice-append-drop pos end text (ground arith),
              (refl, omega (arith, length-slice pos end text (omega arith) (omega arith)), tiles),
              (omega (arith, length-slice pos end text (omega arith) (omega arith)), bounded),
            )
        | inr done ↦ rw done (sym (drop_all pos text (ground arith)), ground arith, tt)
      ]

  pub split_chars-Splits :
      (text : Text) (start : ℕ)
      → 1 ≤ cfg.chunk_size
      → Splits cfg text start (split_chars cfg est text start)
  unfolding split_chars
  split_chars-Splits text start one =
      let (whole, tiles, bounded) =
        split_chars_from-Splits (length text + 1) text start 0 one (omega arith) (omega arith) in
      record {
        whole = whole;
        tiles = Tiles-from (start + 0) start _ _ (omega arith) tiles;
        bounded = bounded;
      }

  merge_from-Splits :
      (prev : Piece) (ps : List Piece) (s e : ℕ)
      → Tiles s (prev ∷ ps) e
      → Bounded cfg (prev ∷ ps)
      → (texts (merge_from cfg est prev ps) ≡ texts (prev ∷ ps))
        × Tiles s (merge_from cfg est prev ps) e
        × Bounded cfg (merge_from cfg est prev ps)
  unfolding merge_from fits
  merge_from-Splits prev [] s e t b = (refl, t, b)
  merge_from-Splits prev (p ∷ ps) s e t b = elim (Bool-cases (fits cfg est (prev.text ++ p.text))) [
    | inl h ↦
        let (whole, tiles, bounded) =
          merge_from-Splits
            (record { text = prev.text ++ p.text; start = prev.start; stop = p.stop }) ps s e
            (t.0, omega (arith, length-append prev.text p.text, t.1, t.2.0, t.2.1), t.2.2)
            (ground (arith, h), b.1.1) in
        rw h (whole ∙ append_assoc prev.text p.text (texts ps), tiles, bounded)
    | inr h ↦
        let (whole, tiles, bounded) = merge_from-Splits p ps prev.stop e t.2 b.1 in
        rw h (ap (◌++◌ prev.text) whole, (t.0, t.1, tiles), (b.0, bounded))
  ]

  pub merge_pieces-Splits :
      (text : Text) (s : ℕ) (ps : List Piece)
      → Splits cfg text s ps
      → Splits cfg text s (merge_pieces cfg est ps)
  unfolding merge_pieces
  merge_pieces-Splits text s [] h = h
  merge_pieces-Splits text s (p ∷ ps) h =
      let (whole, tiles, bounded) = merge_from-Splits p ps s (s + length text) h.tiles h.bounded in
      record { whole = whole ∙ h.whole; tiles = tiles; bounded = bounded }
