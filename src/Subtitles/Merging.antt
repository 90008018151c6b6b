-- ===== src/Subtitles/Merging.antt =====
-- What `SegmentMerger.merge` makes of segments.
use mathlib.Core.List.{append-nil, append_assoc, Perm}
use mathlib.Core.List.Perm
use mkc.Prelude.{
  ℕ, ◌≤◌, Option, List, [], ◌∷◌, ◌++◌, map, length, leb, All, All-append, ◌≡◌, refl, ap, sym, ◌∙◌,
  arith, Bool-cases, inl, inr,
}
use mkc.Prelude.Text.{Text, codes, is_space}
use mkc.Exceptions.{ok}
use mkc.Chunking.Paragraph.Ink.{ink, ink-append, ink-strip, ink_space}
use mkc.Indexing.{AsrSegment}
use mkc.Subtitles.{
  Clock, MergerConfig, is_unspaced, join_text, insert_by_start, sort_by_start, fix_times, normalize,
  ensure_max_chars, should_merge, absorb, merge_from, merge_normalized, merge,
}
use mkc.Subtitles.Splitting.{words, Fits, split_long_segment-IsSplit}

ink-join_text :
    (left right : Text) (language : Option Text)
    → ink (join_text left right language) ≡ ink left ++ ink right
unfolding join_text is_space
ink-join_text left right language = elim (Bool-cases (is_unspaced language)) [
  | inl unspaced ↦ rw unspaced (ink-append left right)
  | inr spaced ↦ rw spaced (
      ink-strip (left ++ (codes " " ++ right))
      ∙ ink-append left (codes " " ++ right)
      ∙ ap (λ t. ink left ++ t) (ink_space 32 right refl))
]

ink-join_text_before :
    (left right : Text) (language : Option Text) (rest : Text)
    → ink (join_text left right language ++ rest) ≡ ink (left ++ (right ++ rest))
ink-join_text_before left right language rest =
    ink-append (join_text left right language) rest
    ∙ ap (λ t. t ++ ink rest) (ink-join_text left right language)
    ∙ append_assoc (ink left) (ink right) (ink rest)
    ∙ ap (◌++◌ (ink left)) (sym (ink-append right rest))
    ∙ sym (ink-append left (right ++ rest))

words-append : {F : Type 0} (xs ys : List (AsrSegment F)) → words (xs ++ ys) ≡ words xs ++ words ys
words-append [] ys = refl
words-append (x ∷ xs) ys =
    ap (λ t. x.text ++ t) (words-append xs ys) ∙ sym (append_assoc x.text (words xs) (words ys))

-- `pieces` hold the ink of `text`, and each is within the limit.
abbrev pub Holds : {F : Type 0} → ℕ → Text → List (AsrSegment F) → Type 0
Holds max_chars text pieces = (ink (words pieces) ≡ ink text) × All (Fits max_chars) pieces

module _ {F : Type 0} (clock : Clock F) where
  insert_by_start-perm :
      (x : AsrSegment F) (ys : List (AsrSegment F)) → Perm (insert_by_start clock x ys) (x ∷ ys)
  unfolding insert_by_start
  insert_by_start-perm x [] = Perm.refl _
  insert_by_start-perm x (y ∷ ys) = elim (Bool-cases (clock.less y.start x.start)) [
    | inl e ↦ rw e (Perm.trans (Perm.cons y (insert_by_start-perm x ys)) (Perm.swap x y ys))
    | inr e ↦ rw e (Perm.refl _)
  ]

  sort_by_start-perm : (xs : List (AsrSegment F)) → Perm (sort_by_start clock xs) xs
  unfolding sort_by_start
  sort_by_start-perm [] = Perm.refl _
  sort_by_start-perm (x ∷ xs) =
      Perm.trans (insert_by_start-perm x (sort_by_start clock xs))
        (Perm.cons x (sort_by_start-perm xs))

  words-fix_times : (xs : List (AsrSegment F)) → words (map (fix_times clock) xs) ≡ words xs
  unfolding fix_times
  words-fix_times [] = refl
  words-fix_times (x ∷ xs) = ap (◌++◌ x.text) (words-fix_times xs)

  module _ (cfg : MergerConfig F) (positive : 1 ≤ cfg.max_chars) where
    ensure_max_chars-Holds :
        (segment : AsrSegment F)
        → (pieces : List (AsrSegment F)) × (ensure_max_chars clock cfg segment ≡ ok pieces)
          × Holds cfg.max_chars segment.text pieces
    unfolding ensure_max_chars
    ensure_max_chars-Holds segment = elim (Bool-cases (leb (length segment.text) cfg.max_chars)) [
      | inl short ↦ (segment ∷ [], rw short, (ap ink (append-nil segment.text), (ground arith, tt)))
      | inr long ↦
          let split = split_long_segment-IsSplit clock segment cfg.max_chars positive in
          (split.0, rw long split.1, (ap ink split.2.0, split.2.2))
    ]

    merge_from-Holds :
        (segments : List (AsrSegment F)) (current : AsrSegment F)
        → (pieces : List (AsrSegment F)) × (merge_from clock cfg current segments ≡ ok pieces)
          × Holds cfg.max_chars (current.text ++ words segments) pieces
    unfolding merge_from absorb
    merge_from-Holds [] current =
        let own = ensure_max_chars-Holds current in
        (own.0, own.1, (own.2.0 ∙ ap ink (sym (append-nil current.text)), own.2.1))
    merge_from-Holds (segment ∷ segments) current =
        elim (Bool-cases (should_merge clock cfg current segment)) [
          | inl merges ↦
              let ih = merge_from-Holds segments (absorb clock cfg current segment) in
              (
                ih.0,
                rw merges ih.1,
                (
                  ih.2.0
                      ∙ ink-join_text_before current.text segment.text cfg.language
                          (words segments),
                  ih.2.1,
                ),
              )
          | inr parted ↦
              let own = ensure_max_chars-Holds current in
              let ih = merge_from-Holds segments segment in
              (
                own.0 ++ ih.0,
                rw (parted, own.1, ih.1),
                (
                  ap ink (words-append own.0 ih.0)
                      ∙ ink-append (words own.0) (words ih.0)
                      ∙ rw (own.2.0, ih.2.0)
                          (sym (ink-append current.text (segment.text ++ words segments))),
                  All-append _ own.0 ih.0 own.2.1 ih.2.1,
                ),
              )
        ]

    merge_normalized-Holds :
        (segments : List (AsrSegment F))
        → (pieces : List (AsrSegment F)) × (merge_normalized clock cfg segments ≡ ok pieces)
          × Holds cfg.max_chars (words segments) pieces
    unfolding merge_normalized
    merge_normalized-Holds [] = ([], refl, (refl, tt))
    merge_normalized-Holds (first ∷ segments) = merge_from-Holds segments first

-- With a limit of at least one character, `merge` returns, and what it returns holds, in order, the
-- characters that are not white space of the texts of the segments, sorted by their starts; no text
-- is longer than the limit. Sorting only changes the order of the segments.
pub merge-Holds :
    {F : Type 0} (clock : Clock F) (cfg : MergerConfig F) (segments : List (AsrSegment F))
    → 1 ≤ cfg.max_chars
    → (pieces : List (AsrSegment F)) × (merge clock cfg segments ≡ ok pieces)
      × Holds cfg.max_chars (words (sort_by_start clock segments)) pieces
      × Perm (sort_by_start clock segments) segments
unfolding merge normalize sort_by_start
merge-Holds clock cfg [] positive = ([], refl, (refl, tt), Perm.refl _)
merge-Holds clock cfg (segment ∷ segments) positive =
    let sorted = sort_by_start clock (segment ∷ segments) in
    let result = merge_normalized-Holds clock cfg positive (map (fix_times clock) sorted) in
    (
      result.0,
      result.1,
      (result.2.0 ∙ ap ink (words-fix_times clock sorted), result.2.1),
      sort_by_start-perm clock (segment ∷ segments),
    )
