-- ===== src/WebSearch/Providers.antt =====
-- ai-service/app/agent/tools/search_providers.py and web_search_config.py: the providers, and what they
-- make of a response. A parsed JSON value is given by what is read of it; curl is a parameter.
pub mod Parsed
use mkc.Prelude.{
  ℕ, zero, suc, Bool, true, false, not, ◌&&◌, ◌||◌, Option, none, some, List, [], ◌∷◌, ◌++◌, length,
  take, leb, nat_eqb, if◌then◌else◌,
}
use mkc.Prelude.Text.{Text, codes, text_eqb, nonempty}
use mkc.Exceptions.{Result, ok, raise, api}
use mkc.Chunking.{ℤ, pos, negsuc}

-- `WebSearchResult`
pub record WebSearchResult : Type 0 where
  pub title : Text
  pub url : Text
  pub snippet : Text

-- `str(d.get(key) or default)`
abbrev pub str_or : Option Text → Text → Text
str_or (some (c ∷ s)) default = c ∷ s
str_or _ default = default

-- `_truncate`
unfoldable pub truncate : Text → ℤ → Text
truncate value (pos (suc n)) = take (suc n) value
truncate value _ = value

-- An element of `RelatedTopics`: no dictionary, one with a list of topics, or another one
mutual
  pub data Topic : Type 0 where
    no_dict : Topic
    group : Topics → Topic
    topic : Option Text → Option Text → Topic

  pub data Topics : Type 0 where
    nil : Topics
    cons : Topic → Topics → Topics

-- The texts of a topic under "Text" and "FirstURL"
pub record Entry : Type 0 where
  pub text : Option Text
  pub first_url : Option Text

-- `_flatten_related_topics`
unfoldable mutual
  pub flatten_topic : Topic → List Entry
  flatten_topic no_dict = []
  flatten_topic (group topics) = flatten_related_topics topics
  flatten_topic (topic text url) = record { text = text; first_url = url } ∷ []

  pub flatten_related_topics : Topics → List Entry
  flatten_related_topics nil = []
  flatten_related_topics (cons item items) = flatten_topic item ++ flatten_related_topics items

-- `text.startswith(prefix)`
unfoldable pub starts_with : Text → Text → Bool
starts_with [] text = true
starts_with (p ∷ prefix) [] = false
starts_with (p ∷ prefix) (c ∷ text) = nat_eqb p c && starts_with prefix text

-- `text.split(separator, 1)[0]`
unfoldable pub split_head : Text → Text → Text
split_head separator [] = []
split_head separator (c ∷ text) =
    let rest = split_head separator text in
    if starts_with separator (c ∷ text) then [] else c ∷ rest

-- A response of DuckDuckGo, with the keys that are read
pub record CurlResponse : Type 0 where
  pub abstract_text : Option Text
  pub abstract_url : Option Text
  pub heading : Option Text
  pub related_topics : Topics

abbrev pub default_title : Text
default_title = codes "DuckDuckGo result"

-- The result of an entry with a text and an address
unfoldable pub topic_result : ℤ → Text → Text → WebSearchResult
topic_result snippet_max_length text first_url = record {
  title = str_or (some (take 80 (split_head (codes " - ") text))) default_title;
  url = first_url;
  snippet = truncate text snippet_max_length;
}

-- The loop over the topics, where there are `count` results
unfoldable pub topic_results : ℤ → ℕ → ℕ → List Entry → List WebSearchResult
topic_results snippet_max_length top_k count [] = []
topic_results snippet_max_length top_k count (entry ∷ entries) =
    let text = str_or entry.text [] in
    let first_url = str_or entry.first_url [] in
    let skipped = topic_results snippet_max_length top_k count entries in
    let rest = topic_results snippet_max_length top_k (suc count) entries in
    if leb top_k count
    then []
    else if not (nonempty text) || not (nonempty first_url)
    then skipped
    else topic_result snippet_max_length text first_url ∷ rest

unfoldable pub abstract_results : ℤ → CurlResponse → List WebSearchResult
abstract_results snippet_max_length raw =
    let abstract = str_or raw.abstract_text [] in
    let abstract_url = str_or raw.abstract_url [] in
    if nonempty abstract && nonempty abstract_url
    then record {
      title = str_or raw.heading default_title;
      url = abstract_url;
      snippet = truncate abstract snippet_max_length;
    }
      ∷ []
    else []

-- `CurlSearchProvider.parse_response`
unfoldable pub parse_curl : ℤ → CurlResponse → ℕ → List WebSearchResult
parse_curl snippet_max_length raw top_k =
    let first = abstract_results snippet_max_length raw in
    take top_k (
      first
      ++ topic_results snippet_max_length top_k (length first)
          (flatten_related_topics raw.related_topics))

-- An item of Serper's "organic" or of Bing's "value": `none` is no dictionary. The title stands under
-- "title" or "name", the address under "link" or "url".
pub record Item : Type 0 where
  pub title : Option Text
  pub url : Option Text
  pub snippet : Option Text

-- The loop of the other two methods `parse_response`
unfoldable pub item_results : ℤ → List (Option Item) → List WebSearchResult
item_results snippet_max_length [] = []
item_results snippet_max_length (none ∷ items) = item_results snippet_max_length items
item_results snippet_max_length (some item ∷ items) =
    let title = str_or item.title [] in
    let url = str_or item.url [] in
    let rest = item_results snippet_max_length items in
    if not (nonempty title) || not (nonempty url)
    then rest
    else record {
      title = title;
      url = url;
      snippet = truncate (str_or item.snippet []) snippet_max_length;
    }
      ∷ rest

-- `SerperProvider.parse_response` and `BingProvider.parse_response`
unfoldable pub parse_items : ℤ → List (Option Item) → ℕ → List WebSearchResult
parse_items snippet_max_length items top_k = item_results snippet_max_length (take top_k items)

-- `MockSearchProvider.parse_response`
unfoldable pub parse_mock : ℕ → List WebSearchResult
parse_mock top_k = take top_k (
    record {
      title = codes "Mock web result";
      url = codes "https://example.com/mock-web-result";
      snippet = codes "Mock search result for local development and CI.";
    }
    ∷ [])

-- The providers, and `ProviderConfig` and `WebSearchConfig` with the fields that are read
pub data Provider : Type 0 where
  curl serper bing mock : Provider

pub record ProviderConfig : Type 0 where
  pub api_key : Text
  pub base_url : Text

pub record WebSearchConfig : Type 0 where
  pub provider : Text
  pub top_k : ℕ
  pub max_top_k : ℕ
  pub max_retries : ℤ
  pub rate_limit_per_minute : ℤ
  pub snippet_max_length : ℤ
  pub curl_config : ProviderConfig
  pub serper_config : ProviderConfig
  pub bing_config : ProviderConfig

-- The constructor of a provider that needs a key; `WebSearchConfigError` by its code
unfoldable pub with_key : Provider → ProviderConfig → Result Provider
with_key provider config =
    if nonempty config.api_key then ok provider else raise (api (codes "WEB_SEARCH_CONFIG_ERROR"))

-- `build_search_provider`
unfoldable pub build_search_provider : WebSearchConfig → Result Provider
build_search_provider config =
    if text_eqb config.provider (codes "curl")
    then ok curl
    else if text_eqb config.provider (codes "serper")
    then with_key serper config.serper_config
    else if text_eqb config.provider (codes "bing")
    then with_key bing config.bing_config
    else if text_eqb config.provider (codes "mock")
    then ok mock
    else raise (api (codes "WEB_SEARCH_CONFIG_ERROR"))

-- A response, as its provider gives it
pub data Response : Type 0 where
  curl_response : CurlResponse → Response
  serper_response bing_response : List (Option Item) → Response
  mock_response : Response

unfoldable pub parse_response : ℤ → Response → ℕ → List WebSearchResult
parse_response snippet_max_length (curl_response raw) top_k =
    parse_curl snippet_max_length raw top_k
parse_response snippet_max_length (serper_response items) top_k =
    parse_items snippet_max_length items top_k
parse_response snippet_max_length (bing_response items) top_k =
    parse_items snippet_max_length items top_k
parse_response snippet_max_length mock_response top_k = parse_mock top_k
