-- ===== src/Summary/Sections/Pages.antt =====
-- Which pages stand in the sections of a document.
use mathlib.Core.List.{append_assoc, map-append}
use mkc.Prelude.{
  ℕ, suc, ◌+◌, ◌-◌, ◌≤◌, ◌<◌, min, Option, some, List, [], ◌∷◌, ◌++◌, map, length, length-map, drop,
  slice, length-slice, length-drop, slice-append-drop, take_of_length-le, le→leb, ◌≡◌, refl, ap,
  sym, ◌∙◌, arith,
}
use mkc.Prelude.Text.{Text, join}
use mkc.Chunking.{pos}
use mkc.Summary.Sections.{
  SectionSummary, TocEntry, get_or, pred, int_leb, int_min, int_max, bound_at, slice_at, newline,
  pdf_section, pdf_sections, split_pdf,
}

-- The entries name pages behind page `low`, each behind the one before, and none behind the last one.
abbrev pub Ascends : ℕ → ℕ → List TocEntry → Type 0
Ascends count low [] = Unit
Ascends count low (entry ∷ toc) =
    (k : ℕ) × (entry.page ≡ some (pos (suc k)))
    × (low ≤ k)
    × (k < count)
    × Ascends count (suc k) toc

abbrev pub text_of : Option Text → Text
text_of text = get_or text []

-- joining lists with something in them
pub join-append :
    (sep : Text) (xs ys : List Text)
    → 1 ≤ length xs
    → 1 ≤ length ys
    → join sep (xs ++ ys) ≡ join sep xs ++ (sep ++ join sep ys)
unfolding join
join-append sep [] ys h k = absurd (omega arith)
join-append sep (x ∷ []) [] h k = absurd (omega arith)
join-append sep (x ∷ []) (y ∷ ys) h k = refl
join-append sep (x ∷ z ∷ xs) ys h k =
    ap (λ t. x ++ (sep ++ t)) (join-append sep (z ∷ xs) ys (omega arith) k)
    ∙ ap (◌++◌ x) (sym (append_assoc sep (join sep (z ∷ xs)) (sep ++ join sep ys)))
    ∙ sym (append_assoc x (sep ++ join sep (z ∷ xs)) (sep ++ join sep ys))

-- the pages of a section, where the next one starts behind it
slice_at-pages :
    (k m : ℕ) (pages : List (Option Text))
    → k < m
    → m ≤ length pages
    → slice_at
        (pred (pos (suc k)))
        (int_max (pos (suc k)) (int_min (pred (pos (suc m))) (pos (length pages))))
        pages
      ≡ slice k m pages
unfolding slice_at pred int_min int_max int_leb bound_at
slice_at-pages k m pages h l =
    let stop : int_min (pos m) (pos (length pages)) ≡ pos m = rw (le→leb m (length pages) l) refl in
    let later : int_max (pos (suc k)) (pos m) ≡ pos m = rw (le→leb (suc k) m (omega arith)) refl in
    let first : min k (length pages) ≡ k = omega arith in
    let last : min m (length pages) ≡ m = omega arith in
    ap (λ j. slice_at (pos k) j pages) (ap (int_max (pos (suc k))) stop ∙ later)
    ∙ rw (first, last) refl

split_pdf_lem :
    (F : Type 0) (toc : List TocEntry) (pages : List (Option Text))
    → 1 ≤ length pages
    → split_pdf {F = F} toc pages ≡ pdf_sections pages 0 toc
unfolding split_pdf
split_pdf_lem F toc [] h = absurd (omega arith)
split_pdf_lem F toc (page ∷ pages) h = refl

module _ (F : Type 0) (pages : List (Option Text)) where
  abbrev pub content_of : SectionSummary F → Text
  content_of section = section.content

  -- The texts of pages, joined
  abbrev pub joined : List (Option Text) → Text
  joined some_pages = join newline (map text_of some_pages)

  section-content :
      (index k m : ℕ) (entry : TocEntry)
      → entry.page ≡ some (pos (suc k))
      → k < m
      → m ≤ length pages
      → content_of (pdf_section pages index entry (pos (suc m))) ≡ joined (slice k m pages)
  unfolding pdf_section
  section-content index k m entry e h l =
      ap
        (λ page.
          let start = get_or page (pos 1) in
          joined (
            slice_at (pred start)
              (int_max start (int_min (pred (pos (suc m))) (pos (length pages)))) pages))
        e
      ∙ ap joined (slice_at-pages k m pages h l)

  pdf_sections_pos :
      (index : ℕ) (entry : TocEntry) (toc : List TocEntry)
      → 1 ≤ length (map content_of (pdf_sections pages index (entry ∷ toc)))
  unfolding pdf_sections
  pdf_sections_pos index entry [] = omega arith
  pdf_sections_pos index entry (next ∷ toc) = omega arith

  joined-slice :
      (k m : ℕ)
      → k < m
      → m < length pages
      → joined (slice k m pages) ++ (newline ++ joined (drop m pages)) ≡ joined (drop k pages)
  joined-slice k m h l =
      sym (
        join-append newline (map text_of (slice k m pages)) (map text_of (drop m pages))
          (omega (
            arith,
            length-map text_of (slice k m pages),
            length-slice k m pages (omega arith) (omega arith),
          ))
          (omega (arith, length-map text_of (drop m pages), length-drop m pages)))
      ∙ ap (join newline) (
          sym (map-append text_of (slice k m pages) (drop m pages))
          ∙ ap (map text_of) (slice-append-drop k m pages (omega arith)))

  pdf_sections-joined :
      (index low : ℕ) (entry : TocEntry) (toc : List TocEntry)
      (h : Ascends (length pages) low (entry ∷ toc))
      → join newline (map content_of (pdf_sections pages index (entry ∷ toc)))
        ≡ joined (drop h.0 pages)
  unfolding pdf_sections join
  pdf_sections-joined index low entry [] (k, e, l, last, _) =
      let behind : pos (length pages + 1) ≡ pos (suc (length pages)) = ap pos (omega arith) in
      ap (λ next. content_of (pdf_section pages index entry next)) behind
      ∙ section-content index k (length pages) entry e last (omega arith)
      ∙ ap joined
          (take_of_length-le (length pages - k) (drop k pages) (omega (arith, length-drop k pages)))
  pdf_sections-joined index low entry (next ∷ toc) (k, e, l, _, (m, e', l', last, rest)) =
      let own =
        content_of (pdf_section pages index entry (get_or next.page (pos (length pages + 1)))) in
      let others = map content_of (pdf_sections pages (suc index) (next ∷ toc)) in
      let own_pages : own ≡ joined (slice k m pages) =
        ap
          (λ page.
            content_of (pdf_section pages index entry (get_or page (pos (length pages + 1)))))
          e'
        ∙ section-content index k m entry e (omega arith) (omega arith) in
      join-append newline (own ∷ []) others (omega arith) (pdf_sections_pos (suc index) next toc)
      ∙ ap (λ t. own ++ (newline ++ t))
          (pdf_sections-joined (suc index) (suc k) next toc (m, e', l', last, rest))
      ∙ ap (λ t. t ++ (newline ++ joined (drop m pages))) own_pages
      ∙ joined-slice k m (omega arith) last

  -- Where the entries of the table of contents name pages of the document in ascending order, the
  -- contents of the sections, joined by line breaks, are the texts of the pages from that of the first
  -- entry on, joined in the same way.
  pub split_pdf-joined :
      (entry : TocEntry) (toc : List TocEntry) (h : Ascends (length pages) 0 (entry ∷ toc))
      → join newline (map content_of (split_pdf (entry ∷ toc) pages)) ≡ joined (drop h.0 pages)
  split_pdf-joined entry toc (k, e, l, last, rest) =
      ap (λ sections. join newline (map content_of sections))
        (split_pdf_lem F (entry ∷ toc) pages (omega (arith, last)))
      ∙ pdf_sections-joined 0 0 entry toc (k, e, l, last, rest)
