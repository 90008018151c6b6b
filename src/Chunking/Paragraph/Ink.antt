-- ===== src/Chunking/Paragraph/Ink.antt =====
-- What `ParagraphChunker` keeps: every character that is not white space, in order.
use mathlib.Core.List.{reverse, reverse-reverse, append-nil, append_assoc}
use mkc.Prelude.{
  ℕ, zero, suc, ◌≤◌, true, not, some, List, [], ◌∷◌, ◌++◌, length, drop, keep_if, keep_if-append,
  keep_if-reverse, nat_eqb, All-append, ◌≡◌, refl, ap, ◌∙◌, sym, arith, Bool-cases, Option-cases,
  inl, inr,
}
use mkc.Prelude.Text.{Text, text_eqb, text_eqb→eq, is_space, lstrip, strip}
use mkc.Chunking.{Config, Estimator, Metadata}
use mkc.Chunking.Base.{Piece, size_exceeded}
use mkc.Chunking.Base.Tiles.{texts, texts-append, Bounded}
use mkc.Chunking.Base.SplitText.{split_text-Splits}
use mkc.Chunking.Semantic.{pieces_of, Numbered, pieces_of-number_pieces, number_pieces-Numbered}
use mkc.Chunking.Paragraph.{
  last_newline, match_gap, keep_segment, segments_from, sentence_separators, paragraph_pieces,
  all_pieces, split,
}

-- The characters of a text that are not white space.
unfoldable pub ink : Text → Text
unfolding keep_if
ink s = keep_if (λ c. not (is_space c)) s

pub ink-append : (s t : Text) → ink (s ++ t) ≡ ink s ++ ink t
unfolding ink
ink-append s t = keep_if-append (λ c. not (is_space c)) s t

ink-reverse : (s : Text) → ink (reverse s) ≡ reverse (ink s)
unfolding ink
ink-reverse s = keep_if-reverse (λ c. not (is_space c)) s

pub ink_space : (c : ℕ) (s : Text) → is_space c ≡ true → ink (c ∷ s) ≡ ink s
unfolding ink
ink_space c s h = rw h

ink-lstrip : (s : Text) → ink (lstrip s) ≡ ink s
unfolding lstrip
ink-lstrip [] = refl
ink-lstrip (c ∷ s) = elim (Bool-cases (is_space c)) [
  | inl e ↦ rw e (ink-lstrip s ∙ sym (ink_space c s e))
  | inr e ↦ rw e
]

pub ink-strip : (s : Text) → ink (strip s) ≡ ink s
unfolding strip
ink-strip s = rw (ink-reverse, ink-lstrip, ink-reverse, ink-lstrip) (reverse-reverse (ink s))

ink_of_blank : (s : Text) → text_eqb (strip s) [] ≡ true → ink s ≡ []
unfolding ink
ink_of_blank s h = sym (ink-strip s) ∙ ap ink (text_eqb→eq (strip s) [] h)

ink-last_newline : (s : Text) (n : ℕ) → last_newline s ≡ some n → ink (drop n s) ≡ ink s
unfolding last_newline
ink-last_newline [] n h = cc
ink-last_newline (c ∷ s) n h = elim (Bool-cases (is_space c)) [
  | inr e ↦ absurd (ground arith)
  | inl e ↦ elim (Option-cases (last_newline s)) [
    | inr (m, q) ↦
        let r : n ≡ suc m = ground (arith, h) in
        rw r (ink-last_newline s m q ∙ sym (ink_space c s e))
    | inl q ↦ let r : n ≡ 1 = ground (arith, h) in rw r (sym (ink_space c s e))
  ]
]

-- a match of `\n\s*\n` is white space
ink_gap : (c : ℕ) (s : Text) (n : ℕ) → match_gap (c ∷ s) ≡ some n → ink (drop n s) ≡ ink (c ∷ s)
unfolding match_gap is_space
ink_gap c s n h = elim (Bool-cases (nat_eqb c b'\n')) [
  | inl e ↦
      let found : last_newline s ≡ some n = ground (arith, h) in
      ink-last_newline s n found ∙ sym (ink_space c s (ground arith))
  | inr e ↦ absurd (ground (arith, h))
]

ink-keep_segment :
    (segment : Text) (start stop : ℕ) (rest : List Piece)
    → ink (texts (keep_segment segment start stop rest)) ≡ ink segment ++ ink (texts rest)
unfolding keep_segment
ink-keep_segment segment start stop rest = elim (Bool-cases (text_eqb (strip segment) [])) [
  | inl e ↦ rw (e, ink_of_blank segment e)
  | inr e ↦ rw e (ink-append segment (texts rest))
]

ink-segments_from :
    (skip cursor pos : ℕ) (current text : Text)
    → ink (texts (segments_from skip cursor pos current text)) ≡ ink (current ++ drop skip text)
unfolding segments_from
ink-segments_from zero cursor pos current [] =
    ink-keep_segment current cursor pos [] ∙ sym (ink-append current [])
ink-segments_from (suc k) cursor pos current [] =
    ink-keep_segment current cursor pos [] ∙ sym (ink-append current [])
ink-segments_from (suc k) cursor pos current (c ∷ s) =
    ink-segments_from k (suc pos) (suc pos) current s
ink-segments_from zero cursor pos current (c ∷ s) = elim (Option-cases (match_gap (c ∷ s))) [
  | inl q ↦
      rw (q, segments_from, texts)
        (ink-segments_from zero cursor (suc pos) (current ++ (c ∷ [])) s
          ∙ ap ink (append_assoc current (c ∷ []) s))
  | inr (n, q) ↦
      rw (q, segments_from, texts)
        (ink-keep_segment current cursor pos _
          ∙ ap (◌++◌ (ink current)) (ink-segments_from n (suc pos) (suc pos) [] s ∙ ink_gap c s n q)
          ∙ sym (ink-append current (c ∷ s)))
]

module _ (cfg : Config) (est : Estimator) (one : 1 ≤ cfg.chunk_size) where
  paragraph_pieces-texts :
      (p : Piece)
      → (texts (paragraph_pieces cfg est p) ≡ p.text) × Bounded cfg (paragraph_pieces cfg est p)
  unfolding paragraph_pieces size_exceeded
  paragraph_pieces-texts p = elim (Bool-cases (size_exceeded cfg est p.text)) [
    | inl e ↦
        let h = split_text-Splits cfg est p.text p.start sentence_separators true one in
        rw e (h.whole, h.bounded)
    | inr e ↦ rw e (append-nil p.text, (ground (arith, e), tt))
  ]

  all_pieces-texts :
      (ps : List Piece)
      → (texts (all_pieces cfg est ps) ≡ texts ps) × Bounded cfg (all_pieces cfg est ps)
  unfolding all_pieces
  all_pieces-texts [] = (refl, tt)
  all_pieces-texts (p ∷ ps) =
      let (whole, bounded) = paragraph_pieces-texts p in
      let (rest, small) = all_pieces-texts ps in
      let first = paragraph_pieces cfg est p in
      (
        texts-append first (all_pieces cfg est ps)
            ∙ ap (λ t. t ++ texts (all_pieces cfg est ps)) whole
            ∙ ap (◌++◌ p.text) rest,
        All-append (λ q. length q.text ≤ cfg.chunk_size) first (all_pieces cfg est ps) bounded
            small,
      )

  -- The chunks are numbered from 0 and hold, in order, all the characters of the text that are not
  -- white space; none is longer than `chunk_size` characters, if that is positive.
  pub paragraph_split-ink :
      {V : Type 0} (resource_id : Text) (metadata : Metadata V) (text : Text)
      → let cs = split cfg est resource_id metadata text in
        Numbered resource_id 0 cs
        × (ink (texts (pieces_of cs)) ≡ ink text)
        × Bounded cfg (pieces_of cs)
  unfolding split
  paragraph_split-ink {V} resource_id metadata text = elim (Bool-cases (text_eqb text [])) [
    | inl e ↦ rw e (tt, ap ink (sym (text_eqb→eq text [] e)), tt)
    | inr e ↦
        let segments = segments_from 0 0 0 [] text in
        let ps = all_pieces cfg est segments in
        let (whole, bounded) = all_pieces-texts segments in
        rw (e, pieces_of-number_pieces cfg est resource_id metadata 0 ps)
          (
            number_pieces-Numbered cfg est resource_id metadata 0 ps,
            ap ink whole ∙ ink-segments_from 0 0 0 [] text,
            bounded,
          )
  ]
