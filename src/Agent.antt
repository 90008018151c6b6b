-- ===== src/Agent.antt =====
-- ai-service/app/agent and the data of ai-service/app/models/agent.py: the state of the workflow, its
-- events, and the router. The sampling parameters of a request to the language model are left out, and
-- so is the message id that every event carries.
pub mod Nodes
pub mod Runner
use mkc.Prelude.{
  ℕ, ◌+◌, Bool, true, false, ◌&&◌, ◌||◌, Option, none, some, List, [], ◌∷◌, ◌++◌, leb,
  if◌then◌else◌, ◌≡◌,
}
use mkc.Prelude.Text.{Text, codes, text_in, nonempty}
use mkc.Exceptions.{Exception, Result, ok, raise}
use mkc.Models.{RetrievalRequest, RetrievalChunk, RetrievalResult}
use mkc.Chunking.Split.{starts_with}
use mkc.Citation.{Citation}

-- `AgentRunRequest`; `history` holds pairs of a role and a content.
pub record AgentRunRequest (F : Type 0) : Type 0 where
  pub question : Text
  pub conversation_id : Text
  pub user_id : Text
  pub resource_ids : List Text
  pub history : List (Text × Text)
  pub intent : Option Text
  pub enable_web_search : Bool
  pub top_k : Option ℕ
  pub score_threshold : Option F
  pub max_context_tokens : Option ℕ

-- `AgentState`
pub record AgentState (F V : Type 0) : Type 0 where
  pub messages : List (Text × Text)
  pub intent : Text
  pub question : Text
  pub user_id : Text
  pub resource_ids : List Text
  pub retrieved_chunks : List (RetrievalChunk F V)
  pub draft_answer : Text
  pub final_answer : Text
  pub citations : List (Citation F)
  pub iterations : ℕ
  pub max_iterations : ℕ
  pub validation_passed : Bool
  pub low_confidence : Bool
  pub top_k : Option ℕ
  pub score_threshold : Option F
  pub max_context_tokens : Option ℕ
  pub enable_web_search : Bool
  pub memory_context : Text

-- `AgentConfig`
pub record AgentConfig : Type 0 where
  pub recursion_limit : ℕ
  pub max_iterations : ℕ
  pub default_intent : Text
  pub enable_dynamic_intent : Bool
  pub enable_web_search : Bool
  pub fallback_message : Text

-- `finish_reason` of a chunk
pub data FinishReason : Type 0 where
  unfinished stop error length_limit : FinishReason

-- `LLMStreamChunk`; a `reasoning_delta` of `None` is the empty one.
pub record LlmStreamChunk : Type 0 where
  pub delta : Text
  pub reasoning_delta : Text
  pub finish_reason : FinishReason

-- What an iteration over a stream gives: chunks, and then its end or an exception.
pub record Stream : Type 0 where
  pub chunks : List LlmStreamChunk
  pub failure : Option Exception

-- What the nodes call: the retrieval service, the language model, web search with its summary, and
-- `str.lower` and the text of a float.
pub record AgentServices (F V : Type 0) : Type 0 where
  pub retrieve : RetrievalRequest F → Result (RetrievalResult F V)
  pub complete : Text → Result Text
  pub stream_complete : List (Text × Text) → Stream
  pub web_context : Text → Result Text
  pub lower : Text → Text
  pub show_score : F → Text

-- `AgentStreamEvent`, by its type
pub data EndData : Type 0 where
  intent_is : Text → EndData
  chunk_count draft_length : ℕ → EndData
  passed : Bool → ℕ → EndData

pub data Event (F : Type 0) : Type 0 where
  node_start : Text → Event F
  node_end : Text → EndData → Event F
  chunk_event reasoning_event : Text → ℕ → Event F
  citation_event : Citation F → Event F
  done_event : ℕ → Bool → ℕ → Event F
  error_event : Text → Event F

abbrev pub valid_intents : List Text
valid_intents = codes "summarize" ∷ codes "qa" ∷ codes "compare" ∷ codes "generate" ∷ []

-- `word in text`
unfoldable pub contains : Text → Text → Bool
unfolding starts_with
contains word [] = starts_with word []
contains word (c ∷ s) = starts_with word (c ∷ s) || contains word s

unfoldable pub contains_any : List Text → Text → Bool
unfolding contains
contains_any [] text = false
contains_any (word ∷ words) text = contains word text || contains_any words text

-- `classify_by_rules`
unfoldable pub classify_by_rules : (Text → Text) → Text → Text → Text
classify_by_rules lower question explicit_intent =
    let text = lower question in
    if text_in explicit_intent valid_intents
    then explicit_intent
    else if contains_any
        (codes "对比" ∷ codes "比较" ∷ codes "compare" ∷ codes "difference" ∷ codes "differences" ∷ [])
        text
    then codes "compare"
    else if contains_any
        (codes "总结" ∷ codes "摘要" ∷ codes "概括" ∷ codes "summarize" ∷ codes "summary" ∷ []) text
    then codes "summarize"
    else if contains_any
        (codes "生成"
          ∷ codes "写一段"
          ∷ codes "创作"
          ∷ codes "generate"
          ∷ codes "draft"
          ∷ codes "write"
          ∷ [])
        text
    then codes "generate"
    else codes "qa"

-- `route_by_intent`; an intent that is empty is not valid either.
unfoldable pub route_by_intent : {F V : Type 0} → AgentState F V → Text
route_by_intent state = if text_in state.intent valid_intents then state.intent else codes "qa"

pub data Route : Type 0 where
  pass retry : Route

-- `route_after_validate`
unfoldable pub route_after_validate : {F V : Type 0} → AgentState F V → Route
route_after_validate state =
    if state.validation_passed
    then pass
    else if leb state.max_iterations state.iterations
    then pass
    else retry
