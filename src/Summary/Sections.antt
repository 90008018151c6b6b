-- ===== src/Summary/Sections.antt =====
-- ai-service/app/services/summary/section_splitter.py: the sections of a document by its table of
-- contents, and of a recording by its time. `F` stands for the floats.
pub mod Pages
pub mod Buckets
use mkc.Prelude.{
  ℕ, zero, suc, ◌+◌, ◌-◌, ◌*◌, ◌/◌, ◌%◌, min, Bool, true, false, Option, none, some, List, [], ◌∷◌,
  ◌++◌, map, length, take, drop, leb, ltb, if◌then◌else◌,
}
use mkc.Prelude.Text.{Text, codes, nonempty, join}
use mkc.Prelude.Decimal.{decimal}
use mkc.Chunking.{ℤ, pos, negsuc}

-- `SectionSummary`
pub record SectionSummary (F : Type 0) : Type 0 where
  pub title : Text
  pub summary : Text
  pub content : Text
  pub page_range : Option (ℤ × ℤ)
  pub timestamp_range : Option (F × F)

-- An entry of the table of contents, with the keys that are read
pub record TocEntry : Type 0 where
  pub title : Option Text
  pub page : Option ℤ

-- `d.get(key, default)`
abbrev pub get_or {ℓ} : {A : Type ℓ} → Option A → A → A
get_or none d = d
get_or (some a) d = a

-- `value or default` of a text
abbrev pub text_or : Option Text → Text → Text
text_or (some (c ∷ s)) d = c ∷ s
text_or _ d = d

-- `n - 1`
unfoldable pub pred : ℤ → ℤ
pred (pos zero) = negsuc 0
pred (pos (suc n)) = pos n
pred (negsuc n) = negsuc (suc n)

unfoldable pub int_leb : ℤ → ℤ → Bool
int_leb (pos m) (pos n) = leb m n
int_leb (pos m) (negsuc n) = false
int_leb (negsuc m) (pos n) = true
int_leb (negsuc m) (negsuc n) = leb n m

unfoldable pub int_min : ℤ → ℤ → ℤ
int_min i j = if int_leb i j then i else j

unfoldable pub int_max : ℤ → ℤ → ℤ
int_max i j = if int_leb i j then j else i

-- Where a slice bound stands in a list of the length: a negative one counts from the end.
unfoldable pub bound_at : ℕ → ℤ → ℕ
bound_at len (pos n) = min n len
bound_at len (negsuc n) = len - suc n

-- `xs[i:j]`
unfoldable pub slice_at {ℓ} : {A : Type ℓ} → ℤ → ℤ → List A → List A
slice_at i j xs =
    take (bound_at (length xs) j - bound_at (length xs) i) (drop (bound_at (length xs) i) xs)

abbrev pub newline : Text
newline = codes "\n"

module _ {F : Type 0} where
  -- The section of an entry, from the page it names to the one before `next_page`; a page is its text,
  -- where it has one.
  unfoldable pub pdf_section : List (Option Text) → ℕ → TocEntry → ℤ → SectionSummary F
  pdf_section pages index entry next_page =
      let start_page = get_or entry.page (pos 1) in
      let end_page = int_max start_page (int_min (pred next_page) (pos (length pages))) in
      record {
        title = text_or entry.title (codes "第 " ++ (decimal (index + 1) ++ codes " 节"));
        summary = [];
        content =
            join newline (map (λ text. get_or text []) (slice_at (pred start_page) end_page pages));
        page_range = some (start_page, end_page);
        timestamp_range = none;
      }

  -- The loop of `split_pdf`
  unfoldable pub pdf_sections : List (Option Text) → ℕ → List TocEntry → List (SectionSummary F)
  pdf_sections pages index [] = []
  pdf_sections pages index (entry ∷ []) =
      pdf_section pages index entry (pos (length pages + 1)) ∷ []
  pdf_sections pages index (entry ∷ next ∷ toc) =
      pdf_section pages index entry (get_or next.page (pos (length pages + 1)))
      ∷ pdf_sections pages (suc index) (next ∷ toc)

  -- `split_pdf`
  unfoldable pub split_pdf : List TocEntry → List (Option Text) → List (SectionSummary F)
  split_pdf toc [] = []
  split_pdf toc (page ∷ pages) = pdf_sections (page ∷ pages) 0 toc

-- The operations on floats that are used: `0.0`, `a - b`, `a >= b`, `float(n)` and `int(a)` of a
-- float that is not negative
pub record Seconds (F : Type 0) : Type 0 where
  pub nought : F
  pub minus : F → F → F
  pub ge : F → F → Bool
  pub whole : ℕ → F
  pub int : F → ℕ

-- A segment, with the keys that are read
pub record SrtSegment (F : Type 0) : Type 0 where
  pub start : Option F
  pub end : Option F
  pub text : Option Text

module _ {F : Type 0} (seconds : Seconds F) where
  -- `{n:02d}`
  abbrev pub two_digits : ℕ → Text
  two_digits n = if ltb n 10 then codes "0" ++ decimal n else decimal n

  -- `_fmt`
  unfoldable pub fmt : F → Text
  fmt time =
      let total = seconds.int time in
      two_digits (total / 60) ++ (codes ":" ++ two_digits (total % 60))

  abbrev pub last_of : SrtSegment F → List (SrtSegment F) → SrtSegment F
  last_of segment [] = segment
  last_of segment (next ∷ rest) = last_of next rest

  -- `_build_audio_section` of a first segment and the others
  unfoldable pub build_audio_section : SrtSegment F → List (SrtSegment F) → SectionSummary F
  build_audio_section first rest =
      let start = get_or first.start seconds.nought in
      let end = get_or (last_of first rest).end start in
      record {
        title = fmt start ++ (codes "-" ++ fmt end);
        summary = [];
        content = join newline (map (λ segment. get_or segment.text []) (first ∷ rest));
        page_range = none;
        timestamp_range = some (start, end);
      }

  abbrev pub section_of : List (SrtSegment F) → List (SectionSummary F)
  section_of [] = []
  section_of (first ∷ rest) = build_audio_section first rest ∷ []

  -- The loop of `split_audio`, where `bucket` has the segments since `bucket_start`
  unfoldable pub audio_sections :
      ℕ → List (SrtSegment F) → F → List (SrtSegment F) → List (SectionSummary F)
  audio_sections chunk_minutes bucket bucket_start [] = section_of bucket
  audio_sections chunk_minutes bucket bucket_start (segment ∷ segments) =
      let end = get_or segment.end bucket_start in
      let filled = bucket ++ (segment ∷ []) in
      let closed = section_of filled ++ audio_sections chunk_minutes [] end segments in
      let open_ = audio_sections chunk_minutes filled bucket_start segments in
      if seconds.ge (seconds.minus end bucket_start) (seconds.whole (chunk_minutes * 60))
      then closed
      else open_

  -- `split_audio`
  unfoldable pub split_audio : List (SrtSegment F) → ℕ → List (SectionSummary F)
  split_audio [] chunk_minutes = []
  split_audio (first ∷ segments) chunk_minutes =
      audio_sections chunk_minutes [] (get_or first.start seconds.nought) (first ∷ segments)
