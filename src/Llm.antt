-- ===== src/Llm.antt =====
-- ai-service/app/services/llm/llm_client.py: retries, the fallback provider, and the end of a stream. A
-- provider is a function of the number of the attempt; `R` stands for the responses. The records for
-- the observer are left out.
pub mod Retries
pub mod Relay
use mkc.Prelude.{
  ℕ, zero, suc, max, Bool, true, false, Option, none, some, List, [], ◌∷◌, ◌++◌, if◌then◌else◌, ◌≡◌,
}
use mkc.Exceptions.{Exception, Result, ok, raise, is_api, llm_unavailable, llm_timeout, llm_stream}
use mkc.Agent.{LlmStreamChunk, Stream, error}

-- `provider.complete(request)` at an attempt
abbrev pub Provider : Type 0 → Type 0
Provider R = ℕ → Result R

-- `isinstance(exc, (LLMUnavailableError, LLMTimeoutError))`
unfoldable pub is_retried : Exception → Bool
is_retried llm_unavailable = true
is_retried llm_timeout = true
is_retried _ = false

-- The `except` clauses of `_complete_with_provider`
unfoldable pub give_up : Exception → Exception
give_up e = if is_api e then e else llm_unavailable

-- The attempts, of which `left` are left behind this one
unfoldable pub attempts : {R : Type 0} → Provider R → ℕ → ℕ → Result R
attempts provider zero attempt = elim (provider attempt) [
  | ok response ↦ ok response
  | raise e ↦ raise (give_up e)
]
attempts provider (suc left) attempt = elim (provider attempt) [
  | ok response ↦ ok response
  | raise e ↦ if is_retried e then attempts provider left (suc attempt) else raise (give_up e)
]

-- `_complete_with_provider`; a first attempt is made in any case.
unfoldable pub complete_with_provider : {R : Type 0} → ℕ → Provider R → Result R
complete_with_provider zero provider = attempts provider zero 0
complete_with_provider (suc retries) provider = attempts provider retries 0

-- `complete`
unfoldable pub complete : {R : Type 0} → ℕ → Provider R → Option (Provider R) → Result R
complete {R} max_retries provider fallback_provider =
    let primary = complete_with_provider max_retries provider in
    let fallback : Result R = elim fallback_provider [
      | none ↦ primary
      | some other_provider ↦ complete_with_provider max_retries other_provider
    ] in
    elim primary [
      | ok response ↦ ok response
      | raise e ↦ if is_retried e then fallback else raise e
    ]

-- An error of the language model
unfoldable pub is_llm_error : Exception → Bool
is_llm_error llm_unavailable = true
is_llm_error llm_timeout = true
is_llm_error llm_stream = true
is_llm_error _ = false

abbrev pub error_chunk : LlmStreamChunk
error_chunk = record { delta = []; reasoning_delta = []; finish_reason = error }

-- `stream_complete`
unfoldable pub end_stream : List LlmStreamChunk → Option Exception → Stream
end_stream chunks none = record { chunks = chunks; failure = none }
end_stream chunks (some e) =
    if is_llm_error e
    then record { chunks = chunks ++ (error_chunk ∷ []); failure = none }
    else record { chunks = chunks; failure = some e }

unfoldable pub stream_complete : Stream → Stream
stream_complete stream = end_stream stream.chunks stream.failure
