-- ===== src/Tests/Searches.antt =====
-- Witnesses for the web search: a limiter that refuses the second of two calls, a provider that answers
-- at the second attempt, and a response with an item that is left out.
use mkc.Prelude.{
  ℕ, ◌≤◌, true, false, none, some, List, [], ◌∷◌, length, All, if◌then◌else◌, nat_eqb, ◌≡◌, ◌⊎◌,
  arith,
}
use mkc.Prelude.Text.{codes}
use mkc.Exceptions.{other}
use mkc.Chunking.{pos}
use mkc.WebSearch.Limiter.{acquire}
use mkc.WebSearch.Limiter.Spacing.{granted, Ascending, Spaced, acquire-Spaced}
use mkc.WebSearch.Providers.{
  ProviderConfig, WebSearchConfig, Response, serper_response, parse_response,
}
use mkc.WebSearch.Providers.Parsed.{IsAccepted, is_cut, parse_response-All}
use mkc.WebSearch.{Search, returned, raised, validation, failed, is_request, search_request, invoke}
use mkc.WebSearch.Answers.{IsAnswer, invoke-IsAnswer}

abbrev times : List ℕ
times = 3 ∷ 5 ∷ 70 ∷ []

times-Ascending : Ascending 0 times
times-Ascending = (omega arith, (omega arith, (omega arith, tt)))

acquire-Spaced_example : Spaced 1 60 (granted (pos 1) 60 times [] [])
acquire-Spaced_example = acquire-Spaced 1 60 times times-Ascending

abbrev response : Response
response = serper_response (
    none
    ∷ some
        (record { title = some (codes "t"); url = some (codes "u"); snippet = some (codes "long") })
    ∷ [])

parse_response-All_example :
    (length (parse_response (pos 2) response 5) ≤ 5)
    × All (IsAccepted (is_cut response) (pos 2)) (parse_response (pos 2) response 5)
parse_response-All_example = parse_response-All (pos 2) response 5

abbrev no_key : ProviderConfig
no_key = record { api_key = []; base_url = [] }

abbrev config : WebSearchConfig
config = record {
  provider = codes "mock";
  top_k = 5;
  max_top_k = 10;
  max_retries = pos 2;
  rate_limit_per_minute = pos 20;
  snippet_max_length = pos 200;
  curl_config = no_key;
  serper_config = no_key;
  bing_config = no_key;
}

abbrev provider : Search
provider request attempt = if nat_eqb attempt 0 then raised (failed other) else returned []

invoke-IsAnswer_example :
    ((is_request (search_request config (codes "tea") none) ≡ false)
      × (invoke config provider 60 7 [] (codes "tea") none ≡ (raised validation, [])))
    ⊎ ((is_request (search_request config (codes "tea") none) ≡ true)
        × ((invoke config provider 60 7 [] (codes "tea") none).1
            ≡ (acquire config.rate_limit_per_minute 60 7 []).1)
        × IsAnswer config provider
            (search_request config (codes "tea") none)
            (acquire config.rate_limit_per_minute 60 7 []).0
            (invoke config provider 60 7 [] (codes "tea") none).0)
invoke-IsAnswer_example = invoke-IsAnswer config provider 60 7 [] (codes "tea") none
