-- ===== src/Extraction/Tags.antt =====
-- `TagNormalizer.normalize` and a description of its result without the loop.
use mkc.Prelude.Dict.{lookup}
use mkc.Prelude.{
  none, some, Option, if◌then◌else◌, ℕ, zero, suc, ◌+◌, ◌≤◌, max, true, false, List, [], ◌∷◌, map,
  take, keep_if, leb, if◌then◌else◌, ◌≡◌, refl, ap, sym, ◌∙◌, arith, Bool-cases, inl, inr,
  number_cases,
}
use mkc.Prelude.Text.{Text, text_eqb, text_eqb_iff, strip, nonempty}
use mkc.Prelude.Distinct.{member, nub, unseen, unseen-met, unseen-new, unseen-nil}
use mkc.Chunking.{ℤ, pos, negsuc}
use mkc.Extraction.{default_to, TagNormalizer, canonical, reaches, normalize_from, normalize}

-- How many tags there are at most; there is always room for one.
abbrev pub room : ℤ → ℕ
room (pos m) = max 1 m
room (negsuc m) = 1

reaches-room : (n : ℕ) (m : ℤ) → reaches (suc n) m ≡ leb (room m) (suc n)
unfolding reaches
reaches-room n (pos m) = ground arith
reaches-room n (negsuc m) = ground arith

room_pos : (m : ℤ) → 1 ≤ room m
room_pos (pos m) = omega arith
room_pos (negsuc m) = omega arith

module _ (lower : Text → Text) (normalizer : TagNormalizer) where
  -- The tags that are not blank, each in its canonical form
  abbrev canonical_tags : List Text → List Text
  canonical_tags tags =
      map (λ raw. canonical lower normalizer (strip raw))
        (keep_if (λ raw. nonempty (strip raw)) tags)

  -- a tag that is not there yet, with and without room for another one
  add_tag :
      (k count : ℕ) (x : Text) (rest tags : List Text)
      → suc k + count ≡ room normalizer.max_count
      → ((j : ℕ) → k ≡ suc j → rest ≡ take k tags)
      → (if reaches (suc count) normalizer.max_count then x ∷ [] else x ∷ rest)
        ≡ take (suc k) (x ∷ tags)
  add_tag zero count x rest tags h same =
      let full : reaches (suc count) normalizer.max_count ≡ true =
        reaches-room count normalizer.max_count ∙ ground (arith, h) in
      rw full refl
  add_tag (suc k) count x rest tags h same =
      let free : reaches (suc count) normalizer.max_count ≡ false =
        reaches-room count normalizer.max_count ∙ ground (arith, h) in
      rw free (ap (◌∷◌ x) (same k refl))

  canonical_tags-blank :
      (raw : Text) (tags : List Text)
      → nonempty (strip raw) ≡ false
      → canonical_tags (raw ∷ tags) ≡ canonical_tags tags
  unfolding keep_if
  canonical_tags-blank raw tags blank = rw blank refl

  canonical_tags-text :
      (raw : Text) (tags : List Text)
      → nonempty (strip raw) ≡ true
      → canonical_tags (raw ∷ tags) ≡ canonical lower normalizer (strip raw) ∷ canonical_tags tags
  unfolding keep_if
  canonical_tags-text raw tags text = rw text refl

  abbrev new_of : List Text → List Text → List Text
  new_of seen xs = keep_if (unseen text_eqb lower seen) (nub text_eqb lower xs)

  new_of-nil : (seen : List Text) → new_of seen (canonical_tags []) ≡ []
  unfolding keep_if nub
  new_of-nil seen = refl

  normalize_from-take :
      (k : ℕ) (seen : List Text) (count : ℕ) (tags : List Text)
      → suc k + count ≡ room normalizer.max_count
      → normalize_from lower normalizer seen count tags
        ≡ take (suc k) (new_of seen (canonical_tags tags))
  unfolding normalize_from
  normalize_from-take k seen count [] h = ap (take (suc k)) (sym (new_of-nil seen))
  normalize_from-take k seen count (raw ∷ tags) h =
      let x = canonical lower normalizer (strip raw) in
      elim (Bool-cases (nonempty (strip raw))) [
        | inr blank ↦ rw blank (
            normalize_from-take k seen count tags h
            ∙ sym (ap (λ xs. take (suc k) (new_of seen xs)) (canonical_tags-blank raw tags blank)))
        | inl text ↦ elim (Bool-cases (member text_eqb (lower x) seen)) [
          | inl met ↦
              rw (text, met)
                (normalize_from-take k seen count tags h
                  ∙ sym (
                      ap (take (suc k)) (
                        ap (new_of seen) (canonical_tags-text raw tags text)
                        ∙ unseen-met text_eqb lower text_eqb_iff seen x (canonical_tags tags) met)))
          | inr new ↦
              rw (text, new)
                (add_tag k count x _ (new_of (lower x ∷ seen) (canonical_tags tags)) h (λ j e.
                    normalize_from-take j (lower x ∷ seen) (suc count) tags (omega (arith, h, e))
                    ∙ ap (λ n. take n (new_of (lower x ∷ seen) (canonical_tags tags))) (sym e))
                  ∙ sym (
                      ap (take (suc k)) (
                        ap (new_of seen) (canonical_tags-text raw tags text)
                        ∙ unseen-new text_eqb lower text_eqb_iff seen x (canonical_tags tags) new)))
        ]
      ]

  -- A tag as it is kept, with its synonym if it has one
  abbrev pub spell : Text → Option Text → Text
  spell tag none = if normalizer.lowercase then lower tag else tag
  spell tag (some merged) = if normalizer.lowercase then lower merged else merged

  abbrev pub spelled : Text → Text
  spelled tag = spell tag (lookup (lower tag) normalizer.synonyms)

  -- The tags that are not blank, without white space at their ends, as they are spelled
  abbrev pub tags_of : List Text → List Text
  tags_of tags = map (λ raw. spelled (strip raw)) (keep_if (λ raw. nonempty (strip raw)) tags)

  spell_lem :
      (tag : Text) (synonym : Option Text)
      → (let merged = default_to tag synonym in
          if normalizer.lowercase then lower merged else merged)
        ≡ spell tag synonym
  spell_lem tag none = refl
  spell_lem tag (some merged) = refl

  canonical_lem : (tag : Text) → canonical lower normalizer tag ≡ spelled tag
  unfolding canonical
  canonical_lem tag = spell_lem tag (lookup (lower tag) normalizer.synonyms)

  map-canonical :
      (tags : List Text)
      → map (λ raw. canonical lower normalizer (strip raw)) tags
        ≡ map (λ raw. spelled (strip raw)) tags
  map-canonical [] = refl
  map-canonical (raw ∷ tags) = rw (canonical_lem (strip raw), map-canonical tags) refl

  normalize-canonical :
      (tags : List Text)
      → normalize lower normalizer tags
        ≡ take (room normalizer.max_count) (nub text_eqb lower (canonical_tags tags))
  unfolding normalize nub
  normalize-canonical tags = elim (number_cases (room normalizer.max_count)) [
    | inl none_left ↦ absurd (omega (arith, none_left, room_pos normalizer.max_count))
    | inr (k, e) ↦
        normalize_from-take k [] 0 tags (omega (arith, e))
        ∙ ap (λ n. take n (new_of [] (canonical_tags tags))) (sym e)
        ∙ ap (take (room normalizer.max_count))
            (unseen-nil text_eqb lower (nub text_eqb lower (canonical_tags tags)))
  ]

  -- The tags that are not blank, each replaced by its synonym if it has one, and in lower case if that is
  -- configured, are kept where no earlier one is the same in lower case, and of those the first
  -- `max_count`, but at least one.
  pub normalize_lem :
      (tags : List Text)
      → normalize lower normalizer tags
        ≡ take (room normalizer.max_count) (nub text_eqb lower (tags_of tags))
  normalize_lem tags =
      normalize-canonical tags
      ∙ ap (λ xs. take (room normalizer.max_count) (nub text_eqb lower xs))
          (map-canonical (keep_if (λ raw. nonempty (strip raw)) tags))
