-- ===== src/Memory/Context.antt =====
-- The context that the memory gives for a question.
use mkc.Prelude.{
  ℕ, ◌+◌, ◌≤◌, true, some, List, [], ◌∷◌, get_elem?, ltb, keep_if, All, All-index,
  All-keep_if_passed, ◌≡◌, ◌⊎◌, refl, arith, Bool-cases, inl, inr,
}
use mkc.Prelude.Text.{Text, nonempty, strip}
use mkc.Prelude.Order.{Float, All-sort_desc}
use mkc.Exceptions.{ok, Result-cases}
use mkc.Models.{VectorSearchResult}
use mkc.Memory.{
  MemoryConfig, MemoryBackend, estimate_tokens, select_snippets, render, relevant, find_memories,
  load_context,
}

-- The tokens of all snippets
abbrev pub total_tokens : List Text → ℕ
total_tokens [] = 0
total_tokens (s ∷ ss) = estimate_tokens s + total_tokens ss

select_snippets-tokens :
    {F V : Type 0} (budget total : ℕ) (hits : List (VectorSearchResult F V))
    → total ≤ budget
    → total + total_tokens (select_snippets budget total hits) ≤ budget
unfolding select_snippets
select_snippets-tokens budget total [] h = omega arith
select_snippets-tokens budget total (hit ∷ hits) h =
    let text = strip hit.text in
    elim (Bool-cases (nonempty text)) [
      | inr blank ↦ rw blank (select_snippets-tokens budget total hits h)
      | inl written ↦ elim (Bool-cases (ltb budget (total + estimate_tokens text))) [
        | inl over ↦ rw (written, over) (omega arith)
        | inr within ↦
            rw (written, within)
              (omega (
                arith,
                select_snippets-tokens budget (total + estimate_tokens text) hits
                    (ground (arith, within)),
              ))
      ]
    ]

-- A snippet is the text of a hit, stripped, and not blank.
abbrev pub IsSnippet : {F V : Type 0} → (VectorSearchResult F V → Type 0) → Text → Type 0
IsSnippet {F} {V} P text =
    (hit : VectorSearchResult F V) × P hit × (text ≡ strip hit.text) × (nonempty text ≡ true)

select_snippets-IsSnippet :
    {F V : Type 0} (P : VectorSearchResult F V → Type 0) (budget total : ℕ)
    (hits : List (VectorSearchResult F V))
    → All P hits
    → All (IsSnippet P) (select_snippets budget total hits)
unfolding select_snippets
select_snippets-IsSnippet P budget total [] all = tt
select_snippets-IsSnippet P budget total (hit ∷ hits) all =
    let text = strip hit.text in
    elim (Bool-cases (nonempty text)) [
      | inr blank ↦ rw blank (select_snippets-IsSnippet P budget total hits all.1)
      | inl written ↦ elim (Bool-cases (ltb budget (total + estimate_tokens text))) [
        | inl over ↦ rw (written, over) tt
        | inr within ↦
            rw (written, within)
              (
                (hit, all.0, refl, written),
                select_snippets-IsSnippet P budget (total + estimate_tokens text) hits all.1,
              )
      ]
    ]

module _ {F V : Type 0} (fl : Float F) (cfg : MemoryConfig F) (backend : MemoryBackend F V) where
  -- One of the results, and not below the threshold
  abbrev pub IsRelevant : List (VectorSearchResult F V) → VectorSearchResult F V → Type 0
  IsRelevant results hit =
      ((i : ℕ) × (get_elem? results i ≡ some hit)) × (fl.le cfg.score_threshold hit.score ≡ true)

  relevant-IsRelevant :
      (results : List (VectorSearchResult F V))
      → All (IsRelevant results) (relevant fl cfg backend results)
  unfolding relevant
  relevant-IsRelevant results =
      let above = λ (r : VectorSearchResult F V). fl.le cfg.score_threshold r.score in
      All-sort_desc fl (λ (r : VectorSearchResult F V). r.score) (IsRelevant results)
        (keep_if above results) (All-keep_if_passed _ above results (All-index results))

  -- The context is empty, or renders snippets that are texts of relevant hits of the search and take
  -- no more tokens together than allowed.
  pub load_context-bounded :
      (user_id conversation question : Text)
      → (load_context fl cfg backend user_id conversation question ≡ [])
        ⊎ ((results : List (VectorSearchResult F V)) × (snippets : List Text) × (find_memories fl
                cfg backend user_id conversation question
              ≡ ok results)
            × (load_context fl cfg backend user_id conversation question ≡ render snippets)
            × (total_tokens snippets ≤ cfg.max_context_tokens)
            × All (IsSnippet (IsRelevant results)) snippets)
  unfolding load_context
  load_context-bounded user_id conversation question = elim (Bool-cases cfg.enabled) [
    | inr off ↦ inl (ground (arith, off))
    | inl on ↦ elim (Result-cases (find_memories fl cfg backend user_id conversation question)) [
      | inl (e, q) ↦ inl (ground (arith, on, q))
      | inr (results, q) ↦
          let n = cfg.max_context_tokens in
          let hits = relevant fl cfg backend results in
          inr (
            results,
            select_snippets n 0 hits,
            q,
            ground (arith, on, q),
            omega (arith, select_snippets-tokens n 0 hits (omega arith)),
            select_snippets-IsSnippet (IsRelevant results) n 0 hits (relevant-IsRelevant results),
          )
    ]
  ]
