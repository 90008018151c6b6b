-- ===== src/WebSearch.antt =====
-- `WebSearchTool` and `summarize_and_inject` of ai-service/app/agent/tools/web_search_tool.py. The search of a
-- provider is a function of the number of the attempt; the pauses between attempts are left out.
pub mod Limiter
pub mod Providers
pub mod Answers
use mkc.Prelude.{
  ℕ, zero, suc, ◌-◌, min, Bool, true, false, not, ◌&&◌, Option, none, some, List, [], ◌∷◌, ◌++◌,
  map, length, leb, if◌then◌else◌,
}
use mkc.Prelude.Text.{Text, codes, nonempty, strip, join}
use mkc.Exceptions.{Exception, Result, ok, raise, ◌>>=◌}
use mkc.Chunking.{ℤ, pos, negsuc}
use mkc.WebSearch.Limiter.{acquire}
use mkc.WebSearch.Providers.{WebSearchResult, WebSearchConfig}

-- What a search raises: Pydantic's `ValidationError`, or another exception
pub data SearchError : Type 0 where
  validation : SearchError
  failed : Exception → SearchError

pub data Outcome (A : Type 0) : Type 0 where
  returned : A → Outcome A
  raised : SearchError → Outcome A

-- `WebSearchRequest`
pub record WebSearchRequest : Type 0 where
  pub query : Text
  pub top_k : ℕ

-- The constraints of its fields
unfoldable pub is_request : WebSearchRequest → Bool
is_request request =
    leb 1 (length request.query)
    && leb (length request.query) 200
    && leb 1 request.top_k
    && leb request.top_k 10

-- `top_k or self._config.top_k`, for a `top_k` that is not negative
unfoldable pub top_k_or : Option ℕ → ℕ → ℕ
top_k_or (some (suc n)) default = suc n
top_k_or _ default = default

unfoldable pub search_request : WebSearchConfig → Text → Option ℕ → WebSearchRequest
search_request config query top_k = record {
  query = strip query;
  top_k = min (top_k_or top_k config.top_k) config.max_top_k;
}

-- `WebSearchResponse`
pub record WebSearchResponse : Type 0 where
  pub results : List WebSearchResult
  pub fallback : Bool

-- `self._provider.search(request)` at an attempt
abbrev pub Search : Type 0
Search = WebSearchRequest → ℕ → Outcome (List WebSearchResult)

-- The attempts, of which `left` are left behind this one; the last exception is raised again.
unfoldable pub attempts : Search → WebSearchRequest → ℕ → ℕ → Outcome (List WebSearchResult)
attempts provider request zero attempt = provider request attempt
attempts provider request (suc left) attempt = elim (provider request attempt) [
  | returned results ↦ returned results
  | raised e ↦ attempts provider request left (suc attempt)
]

-- `max(1, self._config.max_retries) - 1`
unfoldable pub retries : ℤ → ℕ
retries (pos n) = n - 1
retries (negsuc n) = 0

-- `_search_with_retries`
unfoldable pub search_with_retries :
    WebSearchConfig → Search → WebSearchRequest → Outcome (List WebSearchResult)
search_with_retries config provider request =
    attempts provider request (retries config.max_retries) 0

abbrev pub no_results : WebSearchResponse
no_results = record { results = []; fallback = true }

-- The two `except` clauses of `invoke`
unfoldable pub answer : Outcome (List WebSearchResult) → Outcome WebSearchResponse
answer (returned results) = returned (record { results = results; fallback = false })
answer (raised validation) = raised validation
answer (raised (failed e)) = returned no_results

-- What follows the limiter, which lets the call through or not
unfoldable pub limited :
    Result {0} Unit → Outcome (List WebSearchResult) → Outcome WebSearchResponse
limited (ok _) found = answer found
limited (raise e) found = returned no_results

-- `invoke` at a time, with the calls that the limiter keeps
unfoldable pub invoke :
    WebSearchConfig → Search → ℕ → ℕ → List ℕ → Text → Option ℕ → Outcome WebSearchResponse × List ℕ
invoke config provider window now calls query top_k =
    let request = search_request config query top_k in
    let (through, kept) = acquire config.rate_limit_per_minute window now calls in
    if is_request request
    then (limited through (search_with_retries config provider request), kept)
    else (raised validation, calls)

-- The line of a result in the prompt of `summarize_and_inject`
unfoldable pub result_line : WebSearchResult → Text
result_line r =
    codes "- " ++ (r.title ++ (codes ": " ++ (r.snippet ++ (codes " (" ++ (r.url ++ codes ")")))))

-- `summarize_and_inject`; `complete` gives the content of the response.
unfoldable pub summarize_and_inject : List WebSearchResult → (Text → Result Text) → Result Text
summarize_and_inject [] complete = ok []
summarize_and_inject (r ∷ results) complete =
    complete
      (codes "请将以下网络搜索结果摘要为简洁信息，标注为「网络来源」：\n" ++ join (codes "\n") (map result_line (r ∷ results)))
    >>= λ content. ok (codes "【网络来源】" ++ content)
