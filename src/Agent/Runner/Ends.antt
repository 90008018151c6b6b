-- ===== src/Agent/Runner/Ends.antt =====
-- A run ends with one event that says so.
use mathlib.Core.List.{append_assoc, append-nil}
use mkc.Prelude.{
  ℕ, zero, suc, Bool, true, false, ◌&&◌, not, Option, none, some, List, [], ◌∷◌, ◌++◌, map, length,
  if◌then◌else◌, All, All-append, ◌≡◌, refl, sym,
}
use mkc.Prelude.Text.{Text, codes, text_eqb, text_in, nonempty}
use mkc.Exceptions.{Exception, Result, ok, raise}
use mkc.Citation.{Citation}
use mkc.Agent.{
  AgentRunRequest, AgentState, AgentConfig, AgentServices, LlmStreamChunk, Event, EndData,
  node_start, chunk_event, reasoning_event, citation_event, done_event, error_event,
  route_by_intent,
}
use mkc.Agent.Nodes.{retrieval_node, validate_node, stream_generation}
use mkc.Agent.Runner.{
  Run, then_run, run_node, CitationSettings, is_error, consume, error_code, retrieve_step,
  answer_branch, answering, summarizing, choose_branch, end_generation, passes, prepare,
  start_state, conclude, generate, validate_loop, with_citations, closing, finish, run_nodes,
  run_stream,
}

abbrev pub is_terminal : {F : Type 0} → Event F → Bool
is_terminal (done_event _ _ _) = true
is_terminal (error_event _) = true
is_terminal _ = false

abbrev pub Silent : {F : Type 0} → List (Event F) → Type 0
Silent events = All (λ e. is_terminal e ≡ false) events

-- The last event is terminal, and no other is.
abbrev pub EndsOnce : {F : Type 0} → List (Event F) → Type 0
EndsOnce {F} events =
    (body : List (Event F)) × (last : Event F) × (events ≡ body ++ (last ∷ []))
    × Silent body
    × (is_terminal last ≡ true)

-- A part that raises is silent, and one that returns early ends the run.
abbrev pub Proper : {F A : Type 0} → Run F (Option A) → Type 0
Proper (events, raise e) = Silent events
Proper (events, ok none) = EndsOnce events
Proper (events, ok (some a)) = Silent events

-- A run that returns is at its end.
abbrev pub Closed : {F A : Type 0} → Run F A → Type 0
Closed (events, raise e) = Silent events
Closed (events, ok a) = EndsOnce events

Silent-EndsOnce :
    {F : Type 0} (front events : List (Event F))
    → Silent front
    → EndsOnce events
    → EndsOnce (front ++ events)
Silent-EndsOnce front events h (body, last, e, silent, terminal) = (
  front ++ body,
  last,
  rw e (sym (append_assoc front body (last ∷ []))),
  All-append _ front body h silent,
  terminal,
)

Silent-Proper :
    {F A : Type 0} (front : List (Event F)) (m : Run F (Option A))
    → Silent front
    → Proper m
    → Proper (front ++ m.0, m.1)
Silent-Proper front (events, raise e) h p = All-append _ front events h p
Silent-Proper front (events, ok none) h p = Silent-EndsOnce front events h p
Silent-Proper front (events, ok (some a)) h p = All-append _ front events h p

then_run-Proper :
    {F A B : Type 0} (m : Run F A) (next : A → Run F (Option B))
    → Silent m.0
    → ((a : A) → Proper (next a))
    → Proper (then_run m next)
unfolding then_run
then_run-Proper (events, raise e) next h p = h
then_run-Proper (events, ok a) next h p = Silent-Proper events (next a) h (p a)

then_run-Silent :
    {F A B : Type 0} (m : Run F A) (next : A → Run F B)
    → Silent m.0
    → ((a : A) → Silent (next a).0)
    → Silent (then_run m next).0
unfolding then_run
then_run-Silent (events, raise e) next h p = h
then_run-Silent (events, ok a) next h p = All-append _ events (next a).0 h (p a)

Silent-Closed :
    {F A : Type 0} (front : List (Event F)) (m : Run F A)
    → Silent front
    → Closed m
    → Closed (front ++ m.0, m.1)
Silent-Closed front (events, raise e) h p = All-append _ front events h p
Silent-Closed front (events, ok a) h p = Silent-EndsOnce front events h p

then_run-Closed :
    {F A B : Type 0} (m : Run F A) (next : A → Run F B)
    → Silent m.0
    → ((a : A) → Closed (next a))
    → Closed (then_run m next)
unfolding then_run
then_run-Closed (events, raise e) next h p = h
then_run-Closed (events, ok a) next h p = Silent-Closed events (next a) h (p a)

-- behind a part that is proper comes one that is
Proper-then :
    {F A B : Type 0} (m : Run F (Option A)) (next : Option A → Run F (Option B))
    → next none ≡ ([], ok none)
    → ((a : A) → Proper (next (some a)))
    → Proper m
    → Proper (then_run m next)
unfolding then_run
Proper-then (events, raise e) next early p h = h
Proper-then (events, ok none) next early p h = rw (early, append-nil events) h
Proper-then (events, ok (some a)) next early p h = Silent-Proper events (next (some a)) h (p a)

run_node-Silent :
    (F : Type 0) {A : Type 0} (node : Text) (r : Result A) (data_of : A → EndData)
    → Silent {F = F} (run_node node r data_of).0
unfolding run_node
run_node-Silent F node (raise e) data_of = (refl, tt)
run_node-Silent F node (ok a) data_of = (refl, (refl, tt))

if-Silent :
    {F : Type 0} (b : Bool) (e : Event F)
    → is_terminal e ≡ false
    → Silent (if b then e ∷ [] else [])
if-Silent true e h = (h, tt)
if-Silent false e h = tt

if-Proper :
    {F A : Type 0} (b : Bool) (m n : Run F (Option A))
    → Proper m
    → Proper n
    → Proper (if b then m else n)
if-Proper true m n h k = h
if-Proper false m n h k = k

if-Silent_run :
    {F A : Type 0} (b : Bool) (m n : Run F A)
    → Silent m.0
    → Silent n.0
    → Silent (if b then m else n).0
if-Silent_run true m n h k = h
if-Silent_run false m n h k = k

consume-Proper :
    (F : Type 0) (chunks : List LlmStreamChunk) (failure : Option Exception) (answer : Text)
    (i j : ℕ)
    → Proper (consume {F = F} chunks failure answer i j)
unfolding consume
consume-Proper F [] none answer i j = tt
consume-Proper F [] (some e) answer i j = tt
consume-Proper F (chunk ∷ chunks) failure answer i j =
    let deltas : List (Event F) =
      if nonempty chunk.delta then chunk_event chunk.delta i ∷ [] else [] in
    let reasonings : List (Event F) =
      if nonempty chunk.reasoning_delta then reasoning_event chunk.reasoning_delta j ∷ [] else [] in
    let failed : Run F (Option Text) = (error_event (codes "AGENT_LLM_ERROR") ∷ [], ok none) in
    let rest : Run F (Option Text) =
      consume chunks failure (answer ++ chunk.delta) (if nonempty chunk.delta then suc i else i)
        (if nonempty chunk.reasoning_delta then suc j else j) in
    let after = if is_error chunk.finish_reason then failed else rest in
    let proper : Proper after =
      if-Proper (is_error chunk.finish_reason) failed rest
        ([], error_event (codes "AGENT_LLM_ERROR"), refl, tt, refl)
        (consume-Proper F chunks failure _ _ _) in
    Silent-Proper deltas (reasonings ++ after.0, after.1)
      (if-Silent (nonempty chunk.delta) (chunk_event chunk.delta i) refl)
      (Silent-Proper reasonings after
        (if-Silent (nonempty chunk.reasoning_delta) (reasoning_event chunk.reasoning_delta j) refl)
        proper)

map_citation-Silent :
    {F : Type 0} (citations : List (Citation F)) → Silent (map citation_event citations)
map_citation-Silent [] = tt
map_citation-Silent (c ∷ cs) = (refl, map_citation-Silent cs)

module _ {F V : Type 0} (services : AgentServices F V) (cfg : AgentConfig)
    (citation : Option CitationSettings) (load_context : Option (Text → Text → Text → Text)) where
  abbrev step : AgentState F V → Run F (AgentState F V)
  step state = retrieve_step services cfg citation load_context state

  retrieve_step-Silent : (state : AgentState F V) → Silent (step state).0
  unfolding retrieve_step
  retrieve_step-Silent state =
      run_node-Silent F (codes "retrieve") (retrieval_node services cfg state) _

  answering-Silent :
      (state : AgentState F V) → Silent (answering services cfg citation load_context state).0
  unfolding answering
  answering-Silent state =
      then_run-Silent (step state)
        (λ after. ([], ok (after, answer_branch services cfg citation load_context after)))
        (retrieve_step-Silent state) (λ after. tt)

  summarizing-Silent :
      (state : AgentState F V) (branch : Text)
      → Silent (summarizing services cfg citation load_context state branch).0
  unfolding summarizing
  summarizing-Silent state branch =
      if-Silent_run {A = AgentState F V × Text}
        (text_eqb branch (codes "summarize")
          && nonempty state.resource_ids
          && not (nonempty state.retrieved_chunks))
        (then_run (step state) (λ after. ([], ok (after, branch)))) ([], ok (state, branch))
        (then_run-Silent (step state) (λ after. ([], ok (after, branch)))
          (retrieve_step-Silent state) (λ after. tt))
        tt

  choose_branch-Silent :
      (state : AgentState F V) → Silent (choose_branch services cfg citation load_context state).0
  unfolding choose_branch
  choose_branch-Silent state =
      if-Silent_run (text_in (route_by_intent state) (codes "qa" ∷ codes "compare" ∷ []))
        (answering services cfg citation load_context state)
        (summarizing services cfg citation load_context state (route_by_intent state))
        (answering-Silent state) (summarizing-Silent state (route_by_intent state))

  prepare-Silent :
      (request : AgentRunRequest F) (state : AgentState F V)
      → Silent (prepare services cfg citation load_context request state).0
  unfolding prepare
  prepare-Silent request state =
      then_run-Silent (run_node (codes "intent") _ _)
        (choose_branch services cfg citation load_context) (run_node-Silent F (codes "intent") _ _)
        choose_branch-Silent

  validate_loop-Silent :
      (limit : ℕ) (state : AgentState F V)
      → Silent (validate_loop services cfg citation load_context limit state).0
  unfolding validate_loop
  validate_loop-Silent zero state = tt
  validate_loop-Silent (suc limit) state =
      let again = validate_loop services cfg citation load_context limit in
      then_run-Silent (run_node (codes "validate") (ok (validate_node cfg state)) _)
        (λ after.
          if passes services cfg citation load_context after
          then ([], ok after)
          else then_run (step after) again)
        (run_node-Silent F (codes "validate") (ok (validate_node cfg state)) _)
        (λ after.
          if-Silent_run (passes services cfg citation load_context after) ([], ok after)
            (then_run (step after) again) tt
            (then_run-Silent (step after) again (retrieve_step-Silent after)
              (validate_loop-Silent limit)))

  -- behind a part that is proper, a run is at its end where it returns
  then_finish-Closed :
      (request : AgentRunRequest F) (m : Run F (Option (AgentState F V)))
      → Proper m
      → Closed (then_run m (finish services cfg citation load_context request))
  unfolding then_run finish closing
  then_finish-Closed request (events, raise e) p = p
  then_finish-Closed request (events, ok none) p = rw (append-nil events) p
  then_finish-Closed request (events, ok (some state)) p =
      let next : AgentState F V → Run F (Option (AgentState F V)) = λ after. (
        closing services cfg citation load_context
            (with_citations services cfg citation load_context request after),
        ok (some (with_citations services cfg citation load_context request after)),
      ) in
      let loop = validate_loop services cfg citation load_context cfg.recursion_limit state in
      Silent-Closed events (then_run loop next) p (
        then_run-Closed loop next (validate_loop-Silent cfg.recursion_limit state) (λ after.
          let cited = with_citations services cfg citation load_context request after in
          (
            map citation_event cited.citations,
            done_event cited.iterations cited.low_confidence (length cited.citations),
            refl,
            map_citation-Silent cited.citations,
            refl,
          )))

  generate-Proper :
      (state : AgentState F V) (branch : Text)
      → Proper (generate services cfg citation load_context state branch)
  unfolding generate end_generation then_run
  generate-Proper state branch =
      let stream = stream_generation services cfg state branch in
      let parts = consume {F = F} stream.chunks stream.failure [] 0 0 in
      let next = end_generation services cfg citation load_context state branch in
      Silent-Proper (node_start branch ∷ []) (then_run parts next) (refl, tt)
        (Proper-then parts next refl (λ text. (refl, tt))
          (consume-Proper F stream.chunks stream.failure [] 0 0))

  run_nodes-Closed :
      (request : AgentRunRequest F) (state : AgentState F V)
      → Closed (run_nodes services cfg citation load_context request state)
  unfolding run_nodes
  run_nodes-Closed request state =
      let ready = prepare services cfg citation load_context request state in
      let answer = λ (chosen : AgentState F V × Text).
        generate services cfg citation load_context chosen.0 chosen.1 in
      then_finish-Closed request (then_run ready answer) (
        then_run-Proper ready answer (prepare-Silent request state)
          (λ chosen. generate-Proper chosen.0 chosen.1))

  conclude-EndsOnce :
      (request : AgentRunRequest F) (checkpoints : List (Text × AgentState F V))
      (m : Run F (Option (AgentState F V)))
      → Closed m
      → EndsOnce (conclude services cfg citation load_context request checkpoints m).events
  unfolding conclude
  conclude-EndsOnce request checkpoints (events, raise e) h =
      (events, error_event (error_code e), refl, h, refl)
  conclude-EndsOnce request checkpoints (events, ok none) h = h
  conclude-EndsOnce request checkpoints (events, ok (some state)) h = h

  -- Whatever the services return or raise, the events of a run end with one `done` or `error` event,
  -- and there is no other among them.
  pub run_stream-EndsOnce :
      (request : AgentRunRequest F) (checkpoints : List (Text × AgentState F V))
      → EndsOnce (run_stream services cfg citation load_context request checkpoints).events
  unfolding run_stream
  run_stream-EndsOnce request checkpoints =
      conclude-EndsOnce request checkpoints
        (run_nodes services cfg citation load_context request
          (start_state services cfg citation load_context request checkpoints))
        (run_nodes-Closed request _)
