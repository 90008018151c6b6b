-- ===== src/Qa.antt =====
-- ai-service/app/services/qa_service.py, with models/qa.py and services/llm/models.py: the stream of
-- events for one question. The retrieval engine, the language model and the memory are the record
-- `QaServices`. Spans, metrics, log messages and the texts of error messages are left out.
pub mod Deltas
pub mod Shape
pub mod Cites
use mkc.Prelude.{
  ℕ, suc, Bool, true, false, ◌&&◌, Option, none, some, List, [], ◌∷◌, ◌++◌, map, length, take, ltb,
  nat_eqb, if◌then◌else◌, ◌≡◌,
}
use mkc.Prelude.Text.{Text, codes, text_in, nonempty, strip, join}
use mkc.Prelude.Order.{Float}
use mkc.Exceptions.{Exception, Result, ok, raise, ◌>>=◌, other, is_api, code_of}
use mkc.Models.{RetrievalRequest, RetrievalChunk, RetrievalResult}
use mkc.Citation.{Citation, build_citations}
use mkc.Retrieval.{get_or}
use mkc.Agent.{LlmStreamChunk, Stream, FinishReason, stop, error}
use mkc.Agent.Runner.{CitationSettings, is_error}
use mkc.Llm.{is_retried}

pub record Message : Type 0 where
  pub role : Text
  pub content : Text

pub record LlmRequest (F : Type 0) : Type 0 where
  pub messages : List Message
  pub temperature : F
  pub max_tokens : ℕ

pub record QaRequest (F : Type 0) : Type 0 where
  pub question : Text
  pub conversation_id : Text
  pub message_id : Text
  pub user_id : Text
  pub resource_ids : List Text
  pub history : List Message
  pub top_k : Option ℕ
  pub score_threshold : Option F
  pub max_context_tokens : Option ℕ
  pub temperature : Option F
  pub max_tokens : Option ℕ

-- `QAStreamEvent`, by its type: a delta with its index, the number of citations with `degraded`, a code
-- with `retryable`
pub data QaEvent (F : Type 0) : Type 0 where
  chunk_event reasoning_event : Text → ℕ → QaEvent F
  citation_event : Citation F → QaEvent F
  done_event : ℕ → Bool → QaEvent F
  error_event : Text → Bool → QaEvent F

-- What the service calls. `default_temperature` is `0.7`.
pub record QaServices (F V : Type 0) : Type 0 where
  pub rag : RetrievalRequest F → Result (RetrievalResult F V)
  pub llm : LlmRequest F → Stream
  pub citation : Option CitationSettings
  pub load_context : Option (Text → Text → Text → Text)
  pub default_temperature : F

-- The events of a stream, the exception that it ends with, if there is one, and the question and the
-- answer that `save_turn` is called with
pub record Outcome (F : Type 0) : Type 0 where
  pub events : List (QaEvent F)
  pub failure : Option Exception
  pub saved_turn : Option (Text × Text)

-- How the loop over the chunks ends: with an answer, with an error chunk, where so many chunks were
-- sent, or with an exception
pub data Ending : Type 0 where
  answered : Text → Ending
  broken : ℕ → Ending
  raised : Exception → Ending

unfoldable pub is_stop : FinishReason → Bool
is_stop stop = true
is_stop _ = false

-- The loop over the chunks: `answer` holds the parts that were sent, the numbers are the counters.
unfoldable pub consume :
    {F : Type 0} → List LlmStreamChunk → Option Exception → Text → ℕ → ℕ → List (QaEvent F) × Ending
consume [] none answer chunk_index reasoning_index = ([], answered answer)
consume [] (some e) answer chunk_index reasoning_index = ([], raised e)
consume {F} (chunk ∷ chunks) failure answer chunk_index reasoning_index =
    let deltas : List (QaEvent F) =
      if nonempty chunk.delta then chunk_event chunk.delta chunk_index ∷ [] else [] in
    let reasonings : List (QaEvent F) =
      if nonempty chunk.reasoning_delta
      then reasoning_event chunk.reasoning_delta reasoning_index ∷ []
      else [] in
    let next = answer ++ chunk.delta in
    let sent = if nonempty chunk.delta then suc chunk_index else chunk_index in
    let thought = if nonempty chunk.reasoning_delta then suc reasoning_index else reasoning_index in
    let rest : List (QaEvent F) × Ending = consume chunks failure next sent thought in
    let failed : List (QaEvent F) × Ending = ([], broken sent) in
    let stopped : List (QaEvent F) × Ending = ([], answered next) in
    let after =
      if is_error chunk.finish_reason
      then failed
      else if is_stop chunk.finish_reason
      then stopped
      else rest in
    (deltas ++ (reasonings ++ after.0), after.1)

-- `retryable` of `_error_event`
unfoldable pub is_retryable : Text → Bool
is_retryable code = text_in code (
    codes "LLM_TIMEOUT"
    ∷ codes "LLM_STREAM_ERROR"
    ∷ codes "LLM_UNAVAILABLE"
    ∷ codes "RETRIEVAL_UNAVAILABLE"
    ∷ [])

-- `_error_event`
unfoldable pub failed_with : {F : Type 0} → Text → QaEvent F
failed_with code = error_event code (is_retryable code)

-- The code for a failure of the retrieval
unfoldable pub retrieval_error : Exception → Text
retrieval_error e = if is_api e then code_of e else codes "RETRIEVAL_UNAVAILABLE"

-- The loop of `_fallback_answer`
unfoldable pub snippets : {F V : Type 0} → List (RetrievalChunk F V) → List Text
snippets [] = []
snippets (chunk ∷ chunks) =
    let text = strip chunk.text in
    let rest = snippets chunks in if nonempty text then take 160 text ∷ rest else rest

-- `_fallback_answer`
unfoldable pub fallback_answer : {F V : Type 0} → Option (RetrievalResult F V) → Text
fallback_answer none = []
fallback_answer (some result) =
    let found = snippets (take 3 result.chunks) in
    if nonempty found
    then codes "模型暂时不可用，先根据已检索到的资料给出参考信息：\n"
      ++ join (codes "\n") (map (λ snippet. codes "- " ++ snippet) found)
    else []

-- The events where the language model failed: the fallback as a chunk, or an error
unfoldable pub degrade : {F V : Type 0} → Option (RetrievalResult F V) → ℕ → Text → List (QaEvent F)
degrade result index code =
    let fallback = fallback_answer result in
    if nonempty fallback
    then chunk_event fallback index ∷ done_event 0 true ∷ []
    else failed_with code ∷ []

-- `_build_messages`
unfoldable pub build_messages : {F : Type 0} → QaRequest F → Text → Text → List Message
build_messages request prompt memory_context =
    let system : List Message =
      if nonempty memory_context
      then record { role = codes "system"; content = memory_context } ∷ []
      else [] in
    system ++ (request.history ++ (record { role = codes "user"; content = prompt } ∷ []))

-- The validation of `Message`
unfoldable pub are_valid : List Message → Bool
are_valid [] = true
are_valid (m ∷ ms) = (nonempty m.role && nonempty m.content) && are_valid ms

module _ {F V : Type 0} (fl : Float F) (services : QaServices F V) where
  -- `request.temperature or 0.7`
  unfoldable pub temperature_of : Option F → F
  temperature_of none = services.default_temperature
  temperature_of (some t) =
      if fl.le t fl.nought && fl.le fl.nought t then services.default_temperature else t

  -- `request.max_tokens or 2048`
  unfoldable pub max_tokens_of : Option ℕ → ℕ
  max_tokens_of none = 2048
  max_tokens_of (some n) = if nat_eqb n 0 then 2048 else n

  -- `LLMRequest(...)`, which validates its messages
  unfoldable pub llm_request : QaRequest F → List Message → Result (LlmRequest F)
  llm_request request messages =
      if are_valid messages
      then ok (record {
        messages = messages;
        temperature = temperature_of request.temperature;
        max_tokens = max_tokens_of request.max_tokens;
      })
      else raise other

  unfoldable pub retrieval_request : QaRequest F → RetrievalRequest F
  retrieval_request request = record {
    question = request.question;
    user_id = request.user_id;
    resource_ids = request.resource_ids;
    top_k = get_or request.top_k 5;
    score_threshold = request.score_threshold;
    max_context_tokens = request.max_context_tokens;
  }

  -- The retrieval, if there are resources. `RetrievalRequest` refuses a user identifier of more than 128
  -- characters; what else it refuses, `QARequest` has refused before.
  unfoldable pub retrieve_for : QaRequest F → Result (Option (RetrievalResult F V))
  retrieve_for request =
      let retrieved : Result (Option (RetrievalResult F V)) =
        services.rag (retrieval_request request) >>= λ result. ok (some result) in
      if nonempty request.resource_ids
      then if ltb 128 (length request.user_id) then raise other else retrieved
      else ok none

  -- `_build_citations`
  unfoldable pub citations_for : QaRequest F → Text → List (RetrievalChunk F V) → List (Citation F)
  citations_for request answer chunks = elim services.citation [
    | none ↦ []
    | some settings ↦
        if nonempty chunks
        then (build_citations settings.digit settings.max_chars settings.max_citations answer chunks
            request.resource_ids).citations
        else []
  ]

  -- The turn for the memory, if there is one
  unfoldable pub turn_of : QaRequest F → Text → Option (Text × Text)
  turn_of request answer = elim services.load_context [
    | none ↦ none
    | some _ ↦ some (request.question, answer)
  ]

  -- The chunks of `retrieval_result`
  unfoldable pub chunks_of : Option (RetrievalResult F V) → List (RetrievalChunk F V)
  chunks_of none = []
  chunks_of (some result) = result.chunks

  -- What follows the loop, and the `except` clauses
  unfoldable pub conclude :
      QaRequest F → Option (RetrievalResult F V) → List (QaEvent F) → Ending → Outcome F
  conclude request result sent (answered answer) =
      let citations = citations_for request answer (chunks_of result) in
      record {
        events =
            sent ++ (map citation_event citations ++ (done_event (length citations) false ∷ []));
        failure = none;
        saved_turn = turn_of request answer;
      }
  conclude request result sent (broken index) = record {
    events = sent ++ degrade result index (codes "LLM_TIMEOUT");
    failure = none;
    saved_turn = none;
  }
  conclude request result sent (raised e) = record {
    events =
        sent
        ++ (if is_retried e
            then degrade result 0 (code_of e)
            else failed_with (codes "LLM_STREAM_ERROR") ∷ []);
    failure = none;
    saved_turn = none;
  }

  unfoldable pub memory_context : QaRequest F → Text
  memory_context request = elim services.load_context [
    | none ↦ []
    | some load ↦ load request.user_id request.conversation_id request.question
  ]

  unfoldable pub prompt_for : QaRequest F → Option (RetrievalResult F V) → Text
  prompt_for request none = request.question
  prompt_for request (some result) = result.prompt

  -- From the retrieval on
  unfoldable pub answer_with : QaRequest F → Option (RetrievalResult F V) → Outcome F
  answer_with request result =
      let messages = build_messages request (prompt_for request result) (memory_context request) in
      elim (llm_request request messages) [
        | raise e ↦ record { events = []; failure = some e; saved_turn = none }
        | ok call ↦
            let stream = services.llm call in
            let sent : List (QaEvent F) × Ending = consume stream.chunks stream.failure [] 0 0 in
            conclude request result sent.0 sent.1
      ]

  -- `stream_answer`
  unfoldable pub stream_answer : QaRequest F → Outcome F
  stream_answer request = elim (retrieve_for request) [
    | raise e ↦ record {
      events = failed_with (retrieval_error e) ∷ [];
      failure = none;
      saved_turn = none;
    }
    | ok result ↦ answer_with request result
  ]
