-- ===== src/WebSearch/Providers/Parsed.antt =====
-- What the results of a response have in common, whichever provider gave it.
use mkc.Prelude.{
  ℕ, zero, suc, ◌≤◌, Bool, true, false, Option, none, some, List, [], ◌∷◌, ◌++◌, length, take,
  length-take, leb, All, All-append, All-take, ◌≡◌, refl, arith, Bool-cases, inl, inr,
}
use mkc.Prelude.Text.{Text, codes, nonempty}
use mkc.Chunking.{ℤ, pos, negsuc}
use mkc.WebSearch.Providers.{
  WebSearchResult, str_or, truncate, Entry, CurlResponse, Item, Response, flatten_related_topics,
  topic_result, topic_results, abstract_results, parse_curl, item_results, parse_items, parse_mock,
  parse_response, curl_response, serper_response, bing_response, mock_response, default_title,
  split_head,
}

-- A result that `WebSearchResult` accepts, with a snippet of at most `snippet_max_length` characters,
-- where that is positive and the snippet is cut
abbrev pub IsAccepted : Bool → ℤ → WebSearchResult → Type 0
IsAccepted cut snippet_max_length result =
    (nonempty result.title ≡ true)
    × (nonempty result.url ≡ true)
    × (cut ≡ true → (n : ℕ) → snippet_max_length ≡ pos (suc n) → length result.snippet ≤ suc n)

-- The mock provider does not cut its snippet.
abbrev pub is_cut : Response → Bool
is_cut mock_response = false
is_cut _ = true

truncate-short :
    (value : Text) (limit : ℤ) (n : ℕ) → limit ≡ pos (suc n) → length (truncate value limit) ≤ suc n
unfolding truncate
truncate-short value (pos zero) n h = absurd (ground (arith, h))
truncate-short value (pos (suc m)) n h = ground (arith, h, length-take (suc m) value)
truncate-short value (negsuc m) n h = absurd (ground (arith, h))

str_or-nonempty :
    (o : Option Text) (default : Text)
    → nonempty default ≡ true
    → nonempty (str_or o default) ≡ true
str_or-nonempty none default h = h
str_or-nonempty (some []) default h = h
str_or-nonempty (some (c ∷ s)) default h = refl

module _ (limit : ℤ) where
  topic_results-All :
      (top_k count : ℕ) (entries : List Entry)
      → All (IsAccepted true limit) (topic_results limit top_k count entries)
  unfolding topic_results topic_result
  topic_results-All top_k count [] = tt
  topic_results-All top_k count (entry ∷ entries) = elim (Bool-cases (leb top_k count)) [
    | inl full ↦ rw full tt
    | inr free ↦ elim (Bool-cases (nonempty (str_or entry.text []))) [
      | inr e ↦ rw (free, e) (topic_results-All top_k count entries)
      | inl e ↦ elim (Bool-cases (nonempty (str_or entry.first_url []))) [
        | inr d ↦ rw (free, e, d) (topic_results-All top_k count entries)
        | inl d ↦
            rw (free, e, d)
              (
                (
                  str_or-nonempty (some (take 80 (split_head (codes " - ") (str_or entry.text []))))
                      default_title refl,
                  d,
                  λ _. truncate-short (str_or entry.text []) limit,
                ),
                topic_results-All top_k (suc count) entries,
              )
      ]
    ]
  ]

  abstract_results-All :
      (raw : CurlResponse) → All (IsAccepted true limit) (abstract_results limit raw)
  unfolding abstract_results
  abstract_results-All raw = elim (Bool-cases (nonempty (str_or raw.abstract_text []))) [
    | inr e ↦ rw e tt
    | inl e ↦ elim (Bool-cases (nonempty (str_or raw.abstract_url []))) [
      | inr d ↦ rw (e, d) tt
      | inl d ↦
          rw (e, d)
            (
              (
                str_or-nonempty raw.heading default_title refl,
                d,
                λ _. truncate-short (str_or raw.abstract_text []) limit,
              ),
              tt,
            )
    ]
  ]

  item_results-All :
      (items : List (Option Item)) → All (IsAccepted true limit) (item_results limit items)
  unfolding item_results
  item_results-All [] = tt
  item_results-All (none ∷ items) = item_results-All items
  item_results-All (some item ∷ items) = elim (Bool-cases (nonempty (str_or item.title []))) [
    | inr e ↦ rw e (item_results-All items)
    | inl e ↦ elim (Bool-cases (nonempty (str_or item.url []))) [
      | inr d ↦ rw (e, d) (item_results-All items)
      | inl d ↦
          rw (e, d)
            ((e, d, λ _. truncate-short (str_or item.snippet []) limit), item_results-All items)
    ]
  ]

  length-item_results :
      (items : List (Option Item)) → length (item_results limit items) ≤ length items
  unfolding item_results
  length-item_results [] = omega arith
  length-item_results (none ∷ items) = omega (arith, length-item_results items)
  length-item_results (some item ∷ items) = ground (arith, length-item_results items)

  parse_mock-All :
      (top_k : ℕ)
      → (length (parse_mock top_k) ≤ top_k) × All (IsAccepted false limit) (parse_mock top_k)
  unfolding parse_mock
  parse_mock-All zero = (omega arith, tt)
  parse_mock-All (suc zero) = (omega arith, ((refl, refl, λ cut. cc), tt))
  parse_mock-All (suc (suc n)) = (omega arith, ((refl, refl, λ cut. cc), tt))

  -- A response gives at most `top_k` results; each has a title and an address, so that the model accepts
  -- it, and, but for the mock provider, a snippet within the configured length.
  pub parse_response-All :
      (response : Response) (top_k : ℕ)
      → (length (parse_response limit response top_k) ≤ top_k)
        × All (IsAccepted (is_cut response) limit) (parse_response limit response top_k)
  unfolding parse_response parse_curl parse_items parse_mock
  parse_response-All (curl_response raw) top_k =
      let all =
        abstract_results limit raw
        ++ topic_results limit top_k (length (abstract_results limit raw))
            (flatten_related_topics raw.related_topics) in
      (
        omega (arith, length-take top_k all),
        All-take _ top_k all (
            All-append _ (abstract_results limit raw) _ (abstract_results-All raw) (
              topic_results-All top_k (length (abstract_results limit raw))
                (flatten_related_topics raw.related_topics))),
      )
  parse_response-All (serper_response items) top_k = (
    omega (arith, length-item_results (take top_k items), length-take top_k items),
    item_results-All (take top_k items),
  )
  parse_response-All (bing_response items) top_k = (
    omega (arith, length-item_results (take top_k items), length-take top_k items),
    item_results-All (take top_k items),
  )
  parse_response-All mock_response top_k = parse_mock-All top_k
