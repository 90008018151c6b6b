-- ===== src/WebSearch/Answers.antt =====
-- What `WebSearchTool.invoke` answers.
use mkc.Prelude.{
  ℕ, zero, suc, ◌+◌, ◌<◌, max, true, false, Option, List, ◌≡◌, refl, ap, subst, ◌∙◌, ◌⊎◌, arith,
  Bool-cases, inl, inr,
}
use mkc.Prelude.Text.{Text}
use mkc.Exceptions.{Exception, Result, ok, raise}
use mkc.Chunking.{ℤ, pos, negsuc}
use mkc.WebSearch.Limiter.{acquire}
use mkc.WebSearch.Providers.{WebSearchResult, WebSearchConfig}
use mkc.WebSearch.{
  SearchError, validation, failed, Outcome, returned, raised, WebSearchRequest, is_request,
  search_request, WebSearchResponse, Search, attempts, retries, search_with_retries, no_results,
  answer, limited, invoke,
}

-- How many attempts there are
abbrev pub rounds : ℤ → ℕ
rounds (pos n) = max 1 n
rounds (negsuc n) = 1

-- Each of the attempts from `i` on, `n` of them, raised.
abbrev pub AllRaise : Search → WebSearchRequest → ℕ → ℕ → Type 0
AllRaise provider request i zero = Unit
AllRaise provider request i (suc n) =
    ((e : SearchError) × (provider request i ≡ raised e)) × AllRaise provider request (suc i) n

-- The results of the first attempt that returned, or the exception of the last one
abbrev pub Tries : Search → WebSearchRequest → ℕ → ℕ → Outcome (List WebSearchResult) → Type 0
Tries provider request i n outcome =
    (k : ℕ) × (k < n)
    × AllRaise provider request i k
    × (provider request (i + k) ≡ outcome)
    × (((results : List WebSearchResult) × (outcome ≡ returned results))
        ⊎ ((e : SearchError) × (outcome ≡ raised e) × (k + 1 ≡ n)))

Outcome-cases :
    {A : Type 0} (o : Outcome A)
    → ((a : A) × (o ≡ returned a)) ⊎ ((e : SearchError) × (o ≡ raised e))
Outcome-cases (returned a) = inl (a, refl)
Outcome-cases (raised e) = inr (e, refl)

attempts-Tries :
    (provider : Search) (request : WebSearchRequest) (left i : ℕ)
    → Tries provider request i (suc left) (attempts provider request left i)
unfolding attempts
attempts-Tries provider request zero i =
    let here : i + 0 ≡ i = omega arith in
    elim (Outcome-cases (provider request i)) [
      | inl (results, e) ↦ (0, omega arith, tt, ap (provider request) here, inl (results, e))
      | inr (e, r) ↦ (0, omega arith, tt, ap (provider request) here, inr (e, r, omega arith))
    ]
attempts-Tries provider request (suc left) i =
    let here : i + 0 ≡ i = omega arith in
    elim (Outcome-cases (provider request i)) [
      | inl (results, e) ↦
          rw (attempts, e) (0, omega arith, tt, ap (provider request) here ∙ e, inl (results, refl))
      | inr (e, r) ↦
          let (k, small, raises, last, ends) = attempts-Tries provider request left (suc i) in
          let next : i + suc k ≡ suc i + k = omega arith in
          rw (attempts, r)
            (
              suc k,
              omega (arith, small),
              ((e, r), raises),
              ap (provider request) next ∙ last,
              elim ends [
                | inl found ↦ inl found
                | inr (d, q, full) ↦ inr (d, q, omega (arith, full))
              ],
            )
    ]

-- What follows a request that is accepted
abbrev pub IsAnswer :
    WebSearchConfig
    → Search
    → WebSearchRequest
    → Result {0} Unit
    → Outcome WebSearchResponse
    → Type 0
IsAnswer config provider request through out =
    ((e : Exception) × (through ≡ raise e) × (out ≡ returned no_results))
    ⊎ ((through ≡ ok tt)
        × (found : Outcome (List WebSearchResult)) × Tries provider request 0
            (rounds config.max_retries) found
        × (((results : List WebSearchResult) × (found ≡ returned results)
              × (out ≡ returned (record { results = results; fallback = false })))
            ⊎ (((e : Exception) × (found ≡ raised (failed e)) × (out ≡ returned no_results))
                ⊎ ((found ≡ raised validation) × (out ≡ raised validation)))))

rounds-retries : (n : ℤ) → suc (retries n) ≡ rounds n
unfolding retries
rounds-retries (pos n) = omega arith
rounds-retries (negsuc n) = refl

found_cases :
    (found : Outcome (List WebSearchResult))
    → ((results : List WebSearchResult) × (found ≡ returned results)
        × (answer found ≡ returned (record { results = results; fallback = false })))
      ⊎ (((e : Exception) × (found ≡ raised (failed e)) × (answer found ≡ returned no_results))
          ⊎ ((found ≡ raised validation) × (answer found ≡ raised validation)))
unfolding answer
found_cases (returned results) = inl (results, refl, refl)
found_cases (raised (failed e)) = inr (inl (e, refl, refl))
found_cases (raised validation) = inr (inr (refl, refl))

limited-IsAnswer :
    (config : WebSearchConfig) (provider : Search) (request : WebSearchRequest)
    (through : Result {0} Unit)
    → IsAnswer config provider request through
        (limited through (search_with_retries config provider request))
unfolding limited search_with_retries
limited-IsAnswer config provider request (raise e) = inl (e, refl, refl)
limited-IsAnswer config provider request (ok u) =
    let found = attempts provider request (retries config.max_retries) 0 in
    inr (
      refl,
      found,
      subst (λ n. Tries provider request 0 n found) (rounds-retries config.max_retries)
          (attempts-Tries provider request (retries config.max_retries) 0),
      found_cases found,
    )

-- A query is refused by the model of the request, and nothing else is done; or the limiter does not let
-- it through, and there are no results; or the provider is asked, as often as it raises and attempts are
-- left: its results are answered, an exception of the last attempt gives no results, and only a
-- `ValidationError` is raised again.
pub invoke-IsAnswer :
    (config : WebSearchConfig) (provider : Search) (window now : ℕ) (calls : List ℕ) (query : Text)
    (top_k : Option ℕ)
    → let request = search_request config query top_k in
      let limit = acquire config.rate_limit_per_minute window now calls in
      let out = invoke config provider window now calls query top_k in
      ((is_request request ≡ false) × (out ≡ (raised validation, calls)))
      ⊎ ((is_request request ≡ true)
          × (out.1 ≡ limit.1)
          × IsAnswer config provider request limit.0 out.0)
unfolding invoke
invoke-IsAnswer config provider window now calls query top_k =
    let request = search_request config query top_k in
    let limit = acquire config.rate_limit_per_minute window now calls in
    elim (Bool-cases (is_request request)) [
      | inr e ↦ inl (e, rw e refl)
      | inl e ↦ inr (e, rw e refl, rw e (limited-IsAnswer config provider request limit.0))
    ]
