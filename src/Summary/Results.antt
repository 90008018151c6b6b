-- ===== src/Summary/Results.antt =====
-- What `SummaryService.generate` returns and saves.
use mkc.Prelude.{
  ℕ, Bool, true, false, List, [], ◌∷◌, ◌≡◌, ap, sym, subst, ◌∙◌, ◌⊎◌, arith, Bool-cases, inl, inr,
}
use mkc.Prelude.Text.{Text, codes, text_in, nonempty, strip}
use mkc.Exceptions.{Result, ok, ◌>>=◌, Result-cases, >>=-eq-ok, ok_injective}
use mkc.Chunking.{Estimator, pos}
use mkc.Summary.Sections.{SectionSummary, Seconds, get_or, slice_at}
use mkc.Summary.MapReduce.{LlmProvider, summarize}
use mkc.Summary.{
  SummarizeRequest, SummaryResult, SummaryConfig, full_text, split_sections, fallback_text,
  safe_full, summarize_sections, full_part, section_part, generate,
}

-- The summary of a text: what the language model gave, where that is not blank, else its beginning.
abbrev pub IsSummary : Estimator → SummaryConfig → LlmProvider → Text → Text → ℕ → Bool → Type 0
IsSummary estimator config provider text summary tokens fallback =
    (given : Text) × (summarize estimator config.map_reduce provider text ≡ ok (given, tokens))
    × (((nonempty (strip given) ≡ true) × (summary ≡ strip given) × (fallback ≡ false))
        ⊎ ((nonempty (strip given) ≡ false)
            × (summary ≡ slice_at (pos 0) (get_or config.empty_summary_chars (pos 200)) text)
            × (fallback ≡ true)))

-- The sections that are not blank, each with the summary that the language model gave
pub data Summarized {F : Type 0} (provider : LlmProvider)
    : List (SectionSummary F) → List (SectionSummary F) → Type 0 where
  no_sections : Summarized provider [] []
  blank_section :
      (section : SectionSummary F) (sections out : List (SectionSummary F))
      → nonempty (strip section.content) ≡ false
      → Summarized provider sections out
      → Summarized provider (section ∷ sections) out
  summarized_section :
      (section : SectionSummary F) (sections out : List (SectionSummary F)) (summary : Text)
      (tokens : ℕ)
      → nonempty (strip section.content) ≡ true
      → provider.summarize_section section.title section.content ≡ ok (summary, tokens)
      → Summarized provider sections out
      → Summarized provider (section ∷ sections) (record section { summary = summary } ∷ out)

same_parts :
    (s t : Text) (m n : ℕ) (b c : Bool)
    → ◌≡◌ {A = Result (Text × ℕ × Bool)} (ok (s, m, b)) (ok (t, n, c))
    → (s ≡ t) × (m ≡ n) × (b ≡ c)
same_parts s t m n b c h =
    let same = ok_injective h in (ap (λ p. p.0) same, ap (λ p. p.1) same, ap (λ p. p.2) same)

safe_full-IsSummary :
    (estimator : Estimator) (config : SummaryConfig) (provider : LlmProvider) (text summary : Text)
    (tokens : ℕ) (fallback : Bool)
    → safe_full estimator config provider text ≡ ok (summary, tokens, fallback)
    → IsSummary estimator config provider text summary tokens fallback
unfolding safe_full fallback_text
safe_full-IsSummary estimator config provider text summary tokens fallback h =
    elim (Result-cases (summarize estimator config.map_reduce provider text)) [
      | inl (e, failed) ↦ absurd (ground (arith, h, failed))
      | inr ((given, used), answered) ↦ elim (Bool-cases (nonempty (strip given))) [
        | inl text_given ↦
            let same =
              same_parts (strip given) summary used tokens false fallback
                (ground (arith, h, answered, text_given)) in
            (
              given,
              answered ∙ ap (λ n. ok (given, n)) same.1,
              inl (text_given, sym same.0, sym same.2),
            )
        | inr blank ↦
            let same =
              same_parts (slice_at (pos 0) (get_or config.empty_summary_chars (pos 200)) text)
                summary used tokens true fallback (ground (arith, h, answered, blank)) in
            (given, answered ∙ ap (λ n. ok (given, n)) same.1, inr (blank, sym same.0, sym same.2))
      ]
    ]

summarize_sections-Summarized :
    {F : Type 0} (provider : LlmProvider) (sections out : List (SectionSummary F))
    → summarize_sections provider sections ≡ ok out
    → Summarized provider sections out
unfolding summarize_sections
summarize_sections-Summarized provider [] out h = subst (Summarized provider []) (cc) no_sections
summarize_sections-Summarized provider (section ∷ sections) out h =
    elim (Bool-cases (nonempty (strip section.content))) [
      | inr blank ↦
          blank_section section sections out blank
            (summarize_sections-Summarized provider sections out (ground (arith, h, blank)))
      | inl text ↦ elim (Result-cases (provider.summarize_section section.title section.content)) [
        | inl (e, failed) ↦ absurd (ground (arith, h, text, failed))
        | inr ((summary, tokens), given) ↦
            elim (Result-cases (summarize_sections provider sections)) [
              | inl (e, failed) ↦ absurd (ground (arith, h, text, given, failed))
              | inr (rest, more) ↦
                  subst (Summarized provider (section ∷ sections))
                    (ok_injective (ground (arith, h, text, given, more)))
                    (summarized_section section sections rest summary tokens text given
                      (summarize_sections-Summarized provider sections rest more))
            ]
      ]
    ]

module _ {F : Type 0} (save : SummaryResult F → Result {0} Unit)
    (P : SummaryResult F → Type 0) where
  saved_lem :
      (made result : SummaryResult F)
      → (save made >>= λ _. ok made) ≡ ok result
      → P made
      → (save result ≡ ok tt) × P result
  saved_lem made result h p =
      let (value, saved, returned) = >>=-eq-ok (save made) (λ _. ok made) h in
      let same = ok_injective returned in subst (λ r. (save r ≡ ok tt) × P r) same (saved, p)

module _ {F : Type 0} (seconds : Seconds F) (estimator : Estimator) (config : SummaryConfig)
    (provider : LlmProvider) (save : SummaryResult F → Result {0} Unit)
    (request : SummarizeRequest F) where
  abbrev pub HasSummary : Text → ℕ → Bool → Type 0
  HasSummary summary tokens fallback =
      ((text_in (codes "full") request.types ≡ true)
        × IsSummary estimator config provider (full_text request) summary tokens fallback)
      ⊎ ((text_in (codes "full") request.types ≡ false)
          × (summary ≡ [])
          × (tokens ≡ 0)
          × (fallback ≡ false))

  abbrev pub HasSections : List (SectionSummary F) → Type 0
  HasSections sections =
      ((text_in (codes "section") request.types ≡ true)
        × Summarized provider (split_sections seconds request) sections)
      ⊎ ((text_in (codes "section") request.types ≡ false) × (sections ≡ []))

  abbrev pub IsResult : SummaryResult F → Type 0
  IsResult result =
      HasSummary result.full_summary result.tokens result.fallback × HasSections result.sections

  full_part-HasSummary :
      (summary : Text) (tokens : ℕ) (fallback : Bool)
      → full_part seconds estimator config provider save request ≡ ok (summary, tokens, fallback)
      → HasSummary summary tokens fallback
  unfolding full_part
  full_part-HasSummary summary tokens fallback h =
      elim (Bool-cases (text_in (codes "full") request.types)) [
        | inl asked ↦ inl (
          asked,
          safe_full-IsSummary estimator config provider (full_text request) summary tokens fallback
              (ground (arith, h, asked)),
        )
        | inr other ↦
            let same = same_parts [] summary 0 tokens false fallback (ground (arith, h, other)) in
            inr (other, sym same.0, sym same.1, sym same.2)
      ]

  section_part-HasSections :
      (sections : List (SectionSummary F))
      → section_part seconds estimator config provider save request ≡ ok sections
      → HasSections sections
  unfolding section_part
  section_part-HasSections sections h =
      elim (Bool-cases (text_in (codes "section") request.types)) [
        | inl asked ↦ inl (
          asked,
          summarize_sections-Summarized provider (split_sections seconds request) sections
              (ground (arith, h, asked)),
        )
        | inr other ↦ inr (other, sym (ok_injective (ground (arith, h, other))))
      ]

  -- A result that is returned was saved. Where a full summary was asked for, it is what the language
  -- model gave, or the first `empty_summary_chars` characters of the text (200 by default) where that is
  -- blank, and `fallback` says which; where sections were asked for, they are those that are not blank,
  -- each with its own summary.
  pub generate-IsResult :
      (resource_id : Text) (result : SummaryResult F)
      → generate seconds estimator config provider save resource_id request ≡ ok result
      → (save result ≡ ok tt) × IsResult result
  unfolding generate
  generate-IsResult resource_id result h =
      elim (Result-cases (full_part seconds estimator config provider save request)) [
        | inl (e, failed) ↦ absurd (ground (arith, h, failed))
        | inr ((summary, tokens, fallback), full) ↦
            elim (Result-cases (section_part seconds estimator config provider save request)) [
              | inl (e, failed) ↦ absurd (ground (arith, h, full, failed))
              | inr (sections, parts) ↦
                  let made : SummaryResult F = record {
                    resource_id = resource_id;
                    full_summary = summary;
                    sections = sections;
                    model = get_or config.model (codes "mock");
                    tokens = tokens;
                    fallback = fallback;
                  } in
                  saved_lem save IsResult made result (ground (arith, h, full, parts)) (
                    full_part-HasSummary summary tokens fallback full,
                    section_part-HasSections sections parts,
                  )
            ]
      ]
