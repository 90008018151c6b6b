-- ===== src/Indexing/Ranges.antt =====
-- The ranges of the segments of a recording lie where their texts lie in the whole text.
use mathlib.Core.List.{append_assoc, append-nil}
use mkc.Prelude.{
  ℕ, ◌+◌, ◌-◌, Bool, true, false, ◌&&◌, not, List, [], ◌∷◌, ◌++◌, length, length-append, take,
  drop-append, slice, if◌then◌else◌, ◌≡◌, refl, ap, sym, ◌∙◌, subst, arith, Bool-cases, inl, inr,
}
use mkc.Prelude.Text.{Text, codes, nonempty, join}
use mkc.Indexing.{AsrSegment, Range, ranges_from, build_asr_text_ranges}

take-append_front : {A : Type 0} (xs ys : List A) → take (length xs) (xs ++ ys) ≡ xs
take-append_front [] ys = refl
take-append_front (x ∷ xs) ys = ap (◌∷◌ x) (take-append_front xs ys)

slice_middle :
    {A : Type 0} (before part behind : List A) (n : ℕ)
    → n ≡ length before
    → slice n (n + length part) (before ++ (part ++ behind)) ≡ part
slice_middle before part behind n e =
    let size : length before + length part - length before ≡ length part = omega arith in
    rw (e, drop-append before (part ++ behind), size) (take-append_front part behind)

-- The parts behind the first, each behind a space
abbrev tail_text : List Text → Text
tail_text [] = []
tail_text (p ∷ ps) = codes " " ++ (p ++ tail_text ps)

join-tail_text : (p : Text) (ps : List Text) → join (codes " ") (p ∷ ps) ≡ p ++ tail_text ps
unfolding join
join-tail_text p [] = sym (append-nil p)
join-tail_text p (q ∷ ps) = ap (λ t. p ++ (codes " " ++ t)) (join-tail_text q ps)

-- Each range cuts its part out of the text.
abbrev pub Cuts : {F : Type 0} → Text → List Text → List (Range F) → Type 0
Cuts text [] [] = Unit
Cuts text [] (r ∷ rs) = ⊥
Cuts text (p ∷ ps) [] = ⊥
Cuts text (p ∷ ps) (r ∷ rs) = (slice r.start r.stop text ≡ p) × Cuts text ps rs

-- The texts of the segments that have one
abbrev pub texts_of : {F : Type 0} → List (AsrSegment F) → List Text
texts_of [] = []
texts_of (s ∷ ss) = if nonempty s.text then s.text ∷ texts_of ss else texts_of ss

ranges_from-texts :
    {F : Type 0} (first : Bool) (cursor : ℕ) (segments : List (AsrSegment F))
    → (ranges_from first cursor segments).0 ≡ texts_of segments
unfolding ranges_from
ranges_from-texts first cursor [] = refl
ranges_from-texts first cursor (s ∷ ss) = elim (Bool-cases (nonempty s.text)) [
  | inl written ↦ rw written (
      ap (◌∷◌ s.text) (
        ranges_from-texts (first && not true)
          ((if first then cursor else cursor + 1) + length s.text) ss))
  | inr blank ↦ rw blank (ranges_from-texts (first && not false) cursor ss)
]

ranges_from-Cuts :
    {F : Type 0} (before : Text) (cursor : ℕ) (segments : List (AsrSegment F))
    → cursor ≡ length before
    → Cuts
        (before ++ tail_text (texts_of segments))
        (texts_of segments)
        (ranges_from false cursor segments).1
unfolding ranges_from
ranges_from-Cuts before cursor [] e = tt
ranges_from-Cuts before cursor (s ∷ ss) e = elim (Bool-cases (nonempty s.text)) [
  | inr blank ↦ rw blank (ranges_from-Cuts before cursor ss e)
  | inl written ↦
      let spaced = before ++ codes " " in
      let start : cursor + 1 ≡ length spaced = omega (arith, e, length-append before (codes " ")) in
      let stop : cursor + 1 + length s.text ≡ length (spaced ++ s.text) =
        omega (arith, start, length-append spaced s.text) in
      let whole : (spaced ++ s.text) ++ tail_text (texts_of ss)
          ≡ before ++ (codes " " ++ (s.text ++ tail_text (texts_of ss))) =
        append_assoc spaced s.text (tail_text (texts_of ss))
        ∙ append_assoc before (codes " ") (s.text ++ tail_text (texts_of ss)) in
      let here = append_assoc before (codes " ") (s.text ++ tail_text (texts_of ss)) in
      rw written (
        subst (λ t. slice (cursor + 1) (cursor + 1 + length s.text) t ≡ s.text) here
            (slice_middle spaced s.text (tail_text (texts_of ss)) (cursor + 1) start),
        subst (λ t. Cuts t (texts_of ss) (ranges_from false (cursor + 1 + length s.text) ss).1)
            whole (ranges_from-Cuts (spaced ++ s.text) (cursor + 1 + length s.text) ss stop),
      )
]

first-Cuts :
    {F : Type 0} (segments : List (AsrSegment F))
    → Cuts
        (join (codes " ") (texts_of segments))
        (texts_of segments)
        (ranges_from true 0 segments).1
unfolding ranges_from
first-Cuts [] = tt
first-Cuts (s ∷ ss) = elim (Bool-cases (nonempty s.text)) [
  | inr blank ↦ rw blank (first-Cuts ss)
  | inl written ↦
      let size : 0 + length s.text ≡ length s.text = omega arith in
      rw written (
        subst
          (λ t. Cuts t (s.text ∷ texts_of ss) (
            record { start = 0; stop = 0 + length s.text; time_start = s.start; time_end = s.end }
            ∷ (ranges_from false (0 + length s.text) ss).1))
          (sym (join-tail_text s.text (texts_of ss)))
          (
            slice_middle [] s.text (tail_text (texts_of ss)) 0 refl,
            ranges_from-Cuts s.text (0 + length s.text) ss size,
          ))
]

-- The text of a recording is that of its segments, those without text left out, joined by spaces, and
-- there is a range for each of them, which cuts its text out of the whole.
pub build_asr_text_ranges-Cuts :
    {F : Type 0} (segments : List (AsrSegment F))
    → let (text, ranges) = build_asr_text_ranges segments in
      (text ≡ join (codes " ") (texts_of segments)) × Cuts text (texts_of segments) ranges
unfolding build_asr_text_ranges
build_asr_text_ranges-Cuts segments =
    let parts = ranges_from-texts true 0 segments in
    (
      ap (join (codes " ")) parts,
      subst (λ ps. Cuts (join (codes " ") ps) (texts_of segments) (ranges_from true 0 segments).1)
          (sym parts) (first-Cuts segments),
    )
