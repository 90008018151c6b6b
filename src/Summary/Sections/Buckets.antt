-- ===== src/Summary/Sections/Buckets.antt =====
-- The sections of a recording: which segments stand in which one.
use mathlib.Core.List.{append_assoc, append-nil}
use mkc.Prelude.{
  ℕ, ◌*◌, Bool, true, false, List, [], ◌∷◌, ◌++◌, ◌≡◌, sym, subst, Bool-cases, inl, inr,
}
use mkc.Summary.Sections.{
  SectionSummary, SrtSegment, Seconds, get_or, section_of, build_audio_section, audio_sections,
  split_audio,
}

module _ {F : Type 0} (seconds : Seconds F) (chunk_minutes : ℕ) where
  -- The times since which `bucket_start` counts, with the segments that follow
  abbrev pub end_from : F → SrtSegment F → F
  end_from bucket_start segment = get_or segment.end bucket_start

  abbrev pub is_long : F → SrtSegment F → Bool
  is_long bucket_start segment =
      seconds.ge (seconds.minus (end_from bucket_start segment) bucket_start)
        (seconds.whole (chunk_minutes * 60))

  -- A bucket without its last segment: none of them lasts long enough.
  abbrev pub Short : F → List (SrtSegment F) → Type 0
  Short bucket_start [] = Unit
  Short bucket_start (segment ∷ rest) =
      (is_long bucket_start segment ≡ false) × Short bucket_start rest

  -- A recording cut behind each first segment that ends long enough after the end of the last one
  -- of the bucket before
  pub data Buckets : F → List (SrtSegment F) → List (SectionSummary F) → Type 0 where
    none_left : {bucket_start : F} → Buckets bucket_start [] []
    rest_left :
        {bucket_start : F} (first : SrtSegment F) (rest : List (SrtSegment F))
        → Short bucket_start (first ∷ rest)
        → Buckets bucket_start (first ∷ rest) (build_audio_section seconds first rest ∷ [])
    full :
        {bucket_start : F} (bucket : List (SrtSegment F)) (segment : SrtSegment F)
        (segments : List (SrtSegment F)) (sections : List (SectionSummary F))
        → Short bucket_start bucket
        → is_long bucket_start segment ≡ true
        → Buckets (end_from bucket_start segment) segments sections
        → Buckets bucket_start
            (bucket ++ (segment ∷ segments))
            (section_of seconds (bucket ++ (segment ∷ [])) ++ sections)

  Short-append :
      (bucket_start : F) (bucket : List (SrtSegment F)) (segment : SrtSegment F)
      → Short bucket_start bucket
      → is_long bucket_start segment ≡ false
      → Short bucket_start (bucket ++ (segment ∷ []))
  Short-append bucket_start [] segment h e = (e, tt)
  Short-append bucket_start (x ∷ bucket) segment h e =
      (h.0, Short-append bucket_start bucket segment h.1 e)

  end-Buckets :
      (bucket_start : F) (bucket : List (SrtSegment F))
      → Short bucket_start bucket
      → Buckets bucket_start (bucket ++ []) (section_of seconds bucket)
  end-Buckets bucket_start [] h = none_left
  end-Buckets bucket_start (first ∷ rest) h =
      subst (λ xs. Buckets bucket_start xs (section_of seconds (first ∷ rest)))
        (sym (append-nil (first ∷ rest))) (rest_left first rest h)

  audio_sections-Buckets :
      (bucket_start : F) (bucket segments : List (SrtSegment F))
      → Short bucket_start bucket
      → Buckets bucket_start
          (bucket ++ segments)
          (audio_sections seconds chunk_minutes bucket bucket_start segments)
  unfolding audio_sections
  audio_sections-Buckets bucket_start bucket [] h = end-Buckets bucket_start bucket h
  audio_sections-Buckets bucket_start bucket (segment ∷ segments) h =
      elim (Bool-cases (is_long bucket_start segment)) [
        | inl e ↦ rw e (
            full bucket segment segments _ h e
              (audio_sections-Buckets (end_from bucket_start segment) [] segments tt))
        | inr e ↦ rw e (
            subst
              (λ xs. Buckets bucket_start xs (
                audio_sections seconds chunk_minutes (bucket ++ (segment ∷ [])) bucket_start
                  segments))
              (append_assoc bucket (segment ∷ []) segments)
              (audio_sections-Buckets bucket_start (bucket ++ (segment ∷ [])) segments
                (Short-append bucket_start bucket segment h e)))
      ]

  -- The segments are cut in their order, and each stands in just one section: a section ends behind
  -- the first segment that ends at least `chunk_minutes` minutes after the section before (for the
  -- first one, after the start of the recording), and the last section takes what is left.
  pub split_audio-Buckets :
      (first : SrtSegment F) (segments : List (SrtSegment F))
      → Buckets
          (get_or first.start seconds.nought)
          (first ∷ segments)
          (split_audio seconds (first ∷ segments) chunk_minutes)
  unfolding split_audio
  split_audio-Buckets first segments =
      audio_sections-Buckets (get_or first.start seconds.nought) [] (first ∷ segments) tt
