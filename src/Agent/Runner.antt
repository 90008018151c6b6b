-- ===== src/Agent/Runner.antt =====
-- ai-service/app/agent/runner.py: the nodes in their order, as a stream of events. The checkpoints are
-- the dictionary of `InMemoryAgentCheckpointer`.
pub mod Trace
pub mod Ends
pub mod Finals
use mkc.Prelude.{
  ℕ, zero, suc, ◌+◌, Bool, true, false, ◌&&◌, not, Option, none, some, List, [], ◌∷◌, ◌++◌, map,
  length, if◌then◌else◌, ◌≡◌,
}
use mkc.Prelude.Text.{Text, codes, text_eqb, text_in, nonempty}
use mkc.Prelude.Dict.{lookup, insert}
use mkc.Exceptions.{Exception, Result, ok, raise, recursion_error, is_api, code_of}
use mkc.Models.{RetrievalChunk}
use mkc.Citation.{Citation, CitationResult, build_citations}
use mkc.Retrieval.{get_or}
use mkc.Agent.{
  AgentRunRequest, AgentState, AgentConfig, AgentServices, LlmStreamChunk, Stream, FinishReason,
  unfinished, stop, error, length_limit, EndData, intent_is, chunk_count, draft_length, passed,
  Event, node_start, node_end, chunk_event, reasoning_event, citation_event, done_event,
  error_event, route_by_intent, Route, pass, retry, route_after_validate,
}
use mkc.Agent.Nodes.{intent_node, retrieval_node, validate_node, stream_generation}

-- The events that a part of the run yields, and how it ends.
abbrev pub Run : Type 0 → Type 0 → Type 0
Run F A = List (Event F) × Result A

-- One part of the run behind another
unfoldable pub then_run : {F A B : Type 0} → Run F A → (A → Run F B) → Run F B
then_run (events, raise e) next = (events, raise e)
then_run (events, ok a) next = (events ++ (next a).0, (next a).1)

-- A call between a `node_start` and a `node_end`
unfoldable pub run_node : {F A : Type 0} → Text → Result A → (A → EndData) → Run F A
run_node node (raise e) data_of = (node_start node ∷ [], raise e)
run_node node (ok a) data_of = (node_start node ∷ node_end node (data_of a) ∷ [], ok a)

-- How the citations are made, if there is a citation service
pub record CitationSettings : Type 0 where
  pub digit : ℕ → Option ℕ
  pub max_chars : ℕ
  pub max_citations : ℕ

unfoldable pub is_error : FinishReason → Bool
is_error error = true
is_error _ = false

-- The loop over the chunks of the answer: `answer` holds the parts that were sent, and the numbers are
-- the two counters. `none` is the `return` behind an error chunk.
unfoldable pub consume :
    {F : Type 0} → List LlmStreamChunk → Option Exception → Text → ℕ → ℕ → Run F (Option Text)
consume [] none answer chunk_index reasoning_index = ([], ok (some answer))
consume [] (some e) answer chunk_index reasoning_index = ([], raise e)
consume {F} (chunk ∷ chunks) failure answer chunk_index reasoning_index =
    let deltas : List (Event F) =
      if nonempty chunk.delta then chunk_event chunk.delta chunk_index ∷ [] else [] in
    let reasonings : List (Event F) =
      if nonempty chunk.reasoning_delta
      then reasoning_event chunk.reasoning_delta reasoning_index ∷ []
      else [] in
    let rest : Run F (Option Text) =
      consume chunks failure (answer ++ chunk.delta)
        (if nonempty chunk.delta then suc chunk_index else chunk_index)
        (if nonempty chunk.reasoning_delta then suc reasoning_index else reasoning_index) in
    let failed : Run F (Option Text) = (error_event (codes "AGENT_LLM_ERROR") ∷ [], ok none) in
    let after = if is_error chunk.finish_reason then failed else rest in
    (deltas ++ (reasonings ++ after.0), after.1)

-- `_error` for an exception, by the `except` clauses of `run_stream`
unfoldable pub error_code : Exception → Text
error_code recursion_error = codes "AGENT_TIMEOUT"
error_code e = if is_api e then code_of e else codes "AGENT_INTERNAL_ERROR"

-- What a run leaves: its events, the checkpoints, the state in which it came to its end, and the
-- question and the answer that `save_turn` of the memory is called with.
pub record Outcome (F V : Type 0) : Type 0 where
  pub events : List (Event F)
  pub checkpoints : List (Text × AgentState F V)
  pub final : Option (AgentState F V)
  pub saved_turn : Option (Text × Text)

module _ {F V : Type 0} (services : AgentServices F V) (cfg : AgentConfig)
    (citation : Option CitationSettings) (load_context : Option (Text → Text → Text → Text)) where
  -- A retrieval with its two events
  unfoldable pub retrieve_step : AgentState F V → Run F (AgentState F V)
  retrieve_step state =
      run_node (codes "retrieve") (retrieval_node services cfg state)
        (λ after. chunk_count (length after.retrieved_chunks))

  -- The state with the context of the memory, if there is one
  unfoldable pub with_memory : AgentRunRequest F → AgentState F V → AgentState F V
  with_memory request state = elim load_context [
    | none ↦ state
    | some load ↦ record state {
      memory_context = load request.user_id request.conversation_id request.question;
    }
  ]

  -- `"compare" if state.get("intent") == "compare" else "qa"`
  unfoldable pub answer_branch : AgentState F V → Text
  answer_branch state =
      if text_eqb state.intent (codes "compare") then codes "compare" else codes "qa"

  -- The retrieval before an answer
  unfoldable pub answering : AgentState F V → Run F (AgentState F V × Text)
  answering state = then_run (retrieve_step state) λ after. ([], ok (after, answer_branch after))

  -- The retrieval before a summary, where there is something to retrieve
  unfoldable pub summarizing : AgentState F V → Text → Run F (AgentState F V × Text)
  summarizing state branch =
      let retrieved : Run F (AgentState F V × Text) =
        then_run (retrieve_step state) λ after. ([], ok (after, branch)) in
      if text_eqb branch (codes "summarize")
        && nonempty state.resource_ids
        && not (nonempty state.retrieved_chunks)
      then retrieved
      else ([], ok (state, branch))

  -- The retrievals before the answer, and the branch
  unfoldable pub choose_branch : AgentState F V → Run F (AgentState F V × Text)
  choose_branch state =
      let branch = route_by_intent state in
      if text_in branch (codes "qa" ∷ codes "compare" ∷ [])
      then answering state
      else summarizing state branch

  -- The state with the answer that was streamed
  unfoldable pub with_draft : AgentState F V → Text → AgentState F V
  with_draft state answer = record state {
    draft_answer = if nonempty answer then answer else cfg.fallback_message;
  }

  -- What follows the loop over the chunks: `none` is an early return.
  unfoldable pub end_generation :
      AgentState F V → Text → Option Text → Run F (Option (AgentState F V))
  end_generation state branch none = ([], ok none)
  end_generation state branch (some text) =
      let drafted = with_draft state text in
      (node_end branch (draft_length (length drafted.draft_answer)) ∷ [], ok (some drafted))

  -- The answer of a branch
  unfoldable pub generate : AgentState F V → Text → Run F (Option (AgentState F V))
  generate state branch =
      let stream = stream_generation services cfg state branch in
      then_run (node_start branch ∷ [], ok tt)
        λ _. then_run (consume stream.chunks stream.failure [] 0 0) (end_generation state branch)

  -- `route_after_validate(state) == "pass"`
  unfoldable pub passes : AgentState F V → Bool
  passes state = elim (route_after_validate state) [ pass ↦ true | retry ↦ false ]

  -- The loop over validations, for `limit` rounds
  unfoldable pub validate_loop : ℕ → AgentState F V → Run F (AgentState F V)
  validate_loop zero state = ([], raise recursion_error)
  validate_loop (suc limit) state =
      then_run
        (run_node (codes "validate") (ok (validate_node cfg state))
          (λ after. passed after.validation_passed after.iterations))
        λ after.
          let again = then_run (retrieve_step after) (validate_loop limit) in
          if passes after then ([], ok after) else again

  -- `_build_citations`
  unfoldable pub run_citations : AgentRunRequest F → AgentState F V → List (Citation F)
  run_citations request state = elim citation [
    | none ↦ []
    | some settings ↦
        if nonempty state.retrieved_chunks
        then (build_citations settings.digit settings.max_chars settings.max_citations
            state.draft_answer state.retrieved_chunks request.resource_ids).citations
        else []
  ]

  unfoldable pub with_citations : AgentRunRequest F → AgentState F V → AgentState F V
  with_citations request state = record state { citations = run_citations request state }

  -- The events behind the validation
  unfoldable pub closing : AgentState F V → List (Event F)
  closing state =
      map citation_event state.citations
      ++ (done_event state.iterations state.low_confidence (length state.citations) ∷ [])

  -- Validation, citations and the end
  unfoldable pub finish :
      AgentRunRequest F → Option (AgentState F V) → Run F (Option (AgentState F V))
  finish request none = ([], ok none)
  finish request (some state) =
      then_run (validate_loop cfg.recursion_limit state)
        λ after. let cited = with_citations request after in (closing cited, ok (some cited))

  -- Up to the answer
  unfoldable pub prepare : AgentRunRequest F → AgentState F V → Run F (AgentState F V × Text)
  prepare request state =
      then_run
        (run_node (codes "intent") (intent_node services cfg (with_memory request state))
          (λ after. intent_is after.intent))
        choose_branch

  -- `_run_nodes`
  unfoldable pub run_nodes : AgentRunRequest F → AgentState F V → Run F (Option (AgentState F V))
  run_nodes request state =
      then_run (then_run (prepare request state) (λ chosen. generate chosen.0 chosen.1))
        (finish request)

  -- `_initial_state`
  unfoldable pub initial_state : AgentRunRequest F → AgentState F V
  initial_state request = record {
    messages = request.history;
    intent = get_or request.intent [];
    question = request.question;
    user_id = request.user_id;
    resource_ids = request.resource_ids;
    retrieved_chunks = [];
    draft_answer = [];
    final_answer = [];
    citations = [];
    iterations = 0;
    max_iterations = cfg.max_iterations;
    validation_passed = true;
    low_confidence = false;
    top_k = request.top_k;
    score_threshold = request.score_threshold;
    max_context_tokens = request.max_context_tokens;
    enable_web_search = request.enable_web_search;
    memory_context = [];
  }

  -- The iterations of the last run of the conversation
  unfoldable pub previous_iterations : Text → List (Text × AgentState F V) → ℕ
  previous_iterations conversation_id checkpoints = elim (lookup conversation_id checkpoints) [
    | none ↦ 0
    | some previous ↦ previous.iterations
  ]

  -- The state in which `run_stream` starts the nodes
  unfoldable pub start_state : AgentRunRequest F → List (Text × AgentState F V) → AgentState F V
  start_state request checkpoints = record (initial_state request) {
    iterations = previous_iterations request.conversation_id checkpoints;
  }

  -- The turn for the memory, if there is one
  unfoldable pub turn_of : AgentRunRequest F → AgentState F V → Option (Text × Text)
  turn_of request state = elim load_context [
    | none ↦ none
    | some _ ↦ some (request.question, state.draft_answer)
  ]

  -- What `run_stream` makes of the run of the nodes: an exception becomes an event. The state of a run
  -- that is done is saved.
  unfoldable pub conclude :
      AgentRunRequest F
      → List (Text × AgentState F V)
      → Run F (Option (AgentState F V))
      → Outcome F V
  conclude request checkpoints (events, raise e) = record {
    events = events ++ (error_event (error_code e) ∷ []);
    checkpoints = checkpoints;
    final = none;
    saved_turn = none;
  }
  conclude request checkpoints (events, ok none) = record {
    events = events;
    checkpoints = checkpoints;
    final = none;
    saved_turn = none;
  }
  conclude request checkpoints (events, ok (some state)) = record {
    events = events;
    checkpoints = insert request.conversation_id state checkpoints;
    final = some state;
    saved_turn = turn_of request state;
  }

  -- `run_stream`, with a checkpointer
  unfoldable pub run_stream : AgentRunRequest F → List (Text × AgentState F V) → Outcome F V
  run_stream request checkpoints =
      conclude request checkpoints (run_nodes request (start_state request checkpoints))
