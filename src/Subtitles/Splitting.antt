-- ===== src/Subtitles/Splitting.antt =====
-- What `_split_long_segment` makes of a segment.
use mkc.Prelude.{
  ℕ, zero, suc, ◌≤◌, List, [], ◌∷◌, ◌++◌, length, take, drop, take-append-drop, length-take,
  length-drop, false, leb, All, ◌≡◌, refl, ap, ◌∙◌, arith, Bool-cases, inl, inr,
}
use mathlib.Core.List.{append-nil}
use mkc.Prelude.Text.{Text}
use mkc.Exceptions.{ok}
use mkc.Indexing.{AsrSegment}
use mkc.Subtitles.{Clock, slices_from, slices, timed_pieces, split_long_segment}

-- texts one behind the other
abbrev pub joined : List Text → Text
joined [] = []
joined (t ∷ ts) = t ++ joined ts

module _ {F : Type 0} where
  abbrev pub words : List (AsrSegment F) → Text
  words [] = []
  words (s ∷ ss) = s.text ++ words ss

  abbrev pub Fits : ℕ → AsrSegment F → Type 0
  Fits max_chars s = length s.text ≤ max_chars

  -- The first starts at `a`, each further one at the end of the one before, and the last ends at `b`.
  abbrev pub Chained : F → F → List (AsrSegment F) → Type 0
  Chained a b [] = ⊥
  Chained a b (s ∷ []) = (s.start ≡ a) × (s.end ≡ b)
  Chained a b (s ∷ t ∷ ss) = (s.start ≡ a) × Chained s.end b (t ∷ ss)

joined-slices_from :
    (fuel n : ℕ) (text : Text) → length text ≤ fuel → joined (slices_from fuel (suc n) text) ≡ text
unfolding slices_from
joined-slices_from zero n [] h = refl
joined-slices_from zero n (c ∷ text) h = absurd (omega arith)
joined-slices_from (suc fuel) n [] h = refl
joined-slices_from (suc fuel) n (c ∷ text) h =
    let short : length (drop n text) ≤ fuel = omega (arith, length-drop n text, h) in
    ap (λ t. c ∷ (take n text ++ t)) (joined-slices_from fuel n (drop n text) short)
    ∙ ap (◌∷◌ c) (take-append-drop n text)

slices_from-cons :
    (text : Text) (n : ℕ)
    → leb (length text) (suc n) ≡ false
    → (first : Text) × (rest : List Text) × (slices_from (length text) (suc n) text ≡ first ∷ rest)
unfolding slices_from
slices_from-cons [] n long = absurd (ground arith)
slices_from-cons (c ∷ text) n long = (_, _, refl)

slices_from-All : (fuel n : ℕ) (text : Text) → All (λ t. length t ≤ n) (slices_from fuel n text)
unfolding slices_from
slices_from-All zero n text = tt
slices_from-All (suc fuel) n [] = tt
slices_from-All (suc fuel) n (c ∷ text) =
    (omega (arith, length-take n (c ∷ text)), slices_from-All fuel n (drop n (c ∷ text)))

module _ {F : Type 0} (clock : Clock F) (segment : AsrSegment F) (count : ℕ) where
  words-timed_pieces :
      (chunks : List Text) (start : F)
      → words (timed_pieces clock segment count start chunks) ≡ joined chunks
  unfolding timed_pieces
  words-timed_pieces [] start = refl
  words-timed_pieces (t ∷ []) start = refl
  words-timed_pieces (t ∷ u ∷ ts) start = ap (◌++◌ t) (words-timed_pieces (u ∷ ts) _)

  timed_pieces-All :
      (n : ℕ) (chunks : List Text) (start : F)
      → All (λ t. length t ≤ n) chunks
      → All (Fits n) (timed_pieces clock segment count start chunks)
  unfolding timed_pieces
  timed_pieces-All n [] start fit = tt
  timed_pieces-All n (t ∷ []) start fit = (fit.0, tt)
  timed_pieces-All n (t ∷ u ∷ ts) start fit = (fit.0, timed_pieces-All n (u ∷ ts) _ fit.1)

  timed_pieces-Chained :
      (chunk : Text) (chunks : List Text) (start : F)
      → Chained start segment.end (timed_pieces clock segment count start (chunk ∷ chunks))
  unfolding timed_pieces
  timed_pieces-Chained t [] start = (refl, refl)
  timed_pieces-Chained t (u ∷ []) start = (refl, (refl, refl))
  timed_pieces-Chained t (u ∷ v ∷ ts) start = (refl, timed_pieces-Chained u (v ∷ ts) _)

-- The pieces of a segment hold its text and fill its time, and each is within the limit.
abbrev pub IsSplit : {F : Type 0} → ℕ → AsrSegment F → List (AsrSegment F) → Type 0
IsSplit max_chars segment pieces =
    (words pieces ≡ segment.text)
    × Chained segment.start segment.end pieces
    × All (Fits max_chars) pieces

timed_pieces-IsSplit :
    {F : Type 0} (clock : Clock F) (segment : AsrSegment F) (n : ℕ)
    → leb (length segment.text) (suc n) ≡ false
    → let chunks = slices_from (length segment.text) (suc n) segment.text in
      IsSplit (suc n) segment (timed_pieces clock segment (length chunks) segment.start chunks)
timed_pieces-IsSplit clock segment n long =
    let chunks = slices_from (length segment.text) (suc n) segment.text in
    let first = slices_from-cons segment.text n long in
    (
      words-timed_pieces clock segment (length chunks) chunks segment.start
          ∙ joined-slices_from (length segment.text) n segment.text (omega arith),
      rw first.2 (timed_pieces-Chained clock segment _ first.0 first.1 segment.start),
      timed_pieces-All clock segment (length chunks) (suc n) chunks segment.start
          (slices_from-All (length segment.text) (suc n) segment.text),
    )

-- With a limit of at least one character, `_split_long_segment` returns, and the texts of the
-- pieces, put together, are that of the segment; none is longer than the limit; the first starts
-- where the segment does, each further one where the one before ends, and the last ends where the
-- segment does.
pub split_long_segment-IsSplit :
    {F : Type 0} (clock : Clock F) (segment : AsrSegment F) (max_chars : ℕ)
    → 1 ≤ max_chars
    → (pieces : List (AsrSegment F)) × (split_long_segment clock segment max_chars ≡ ok pieces)
      × IsSplit max_chars segment pieces
unfolding split_long_segment slices
split_long_segment-IsSplit clock segment zero positive = absurd (omega arith)
split_long_segment-IsSplit clock segment (suc n) positive =
    elim (Bool-cases (leb (length segment.text) (suc n))) [
      | inl short ↦
          (segment ∷ [], rw short, (append-nil segment.text, (refl, refl), (ground arith, tt)))
      | inr long ↦ (_, rw long, timed_pieces-IsSplit clock segment n long)
    ]
