-- ===== src/Agent/Runner/Finals.antt =====
-- The state in which a run comes to its end.
use mkc.Prelude.{
  ℕ, zero, suc, ◌+◌, ◌≤◌, true, false, ◌&&◌, not, Option, none, some, List, [], ◌∷◌, if◌then◌else◌,
  All, ◌≡◌, ◌⊎◌, refl, ap, sym, ◌∙◌, arith, Bool-cases, Option-cases, inl, inr,
}
use mkc.Prelude.Text.{Text, codes, text_eqb, text_eqb_refl, text_in, nonempty}
use mkc.Prelude.Dict.{lookup, lookup-insert}
use mkc.Exceptions.{Result, ok, raise, >>=-eq-ok}
use mkc.Citation.{Citation}
use mkc.Citation.Validate.{build_citations-authorized}
use mkc.Agent.{
  AgentRunRequest, AgentState, AgentConfig, AgentServices, route_by_intent, route_after_validate,
  classify_by_rules,
}
use mkc.Agent.Nodes.{
  with_intent, dynamic_intent, intent_node, chunks_or_none, invoke, with_chunks, retrieval_node,
  validate_node,
}
use mkc.Agent.Runner.{
  Run, then_run, run_node, CitationSettings, retrieve_step, with_memory, answer_branch, answering,
  summarizing, choose_branch, prepare, with_draft, end_generation, generate, passes, validate_loop,
  run_citations, with_citations, closing, finish, run_nodes, initial_state, previous_iterations,
  start_state, conclude, run_stream, consume,
}
use mkc.Agent.Nodes.{stream_generation}

then_run-ok :
    {F A B : Type 0} (m : Run F A) (next : A → Run F B) (b : B)
    → (then_run m next).1 ≡ ok b
    → (a : A) × (m.1 ≡ ok a) × ((next a).1 ≡ ok b)
unfolding then_run
then_run-ok (events, raise e) next b h = cc
then_run-ok (events, ok a) next b h = (a, refl, h)

run_node-ok :
    (F : Type 0) {A : Type 0} (node : Text) (r : Result A) (data_of : _) (a : A)
    → (run_node {F = F} node r data_of).1 ≡ ok a
    → r ≡ ok a
unfolding run_node
run_node-ok F node (raise e) data_of a h = cc
run_node-ok F node (ok x) data_of a h = h

module _ {F V : Type 0} (services : AgentServices F V) (cfg : AgentConfig)
    (citation : Option CitationSettings) (load_context : Option (Text → Text → Text → Text))
    (request : AgentRunRequest F) (n : ℕ) where
  -- What holds of the state up to the validation.
  abbrev Fresh : AgentState F V → Type 0
  Fresh state =
      (state.citations ≡ [])
      × (state.iterations ≡ n)
      × (state.resource_ids ≡ request.resource_ids)
      × ((state.retrieved_chunks ≡ []) ⊎ (nonempty request.resource_ids ≡ true))

  with_memory-Fresh :
      (state : AgentState F V)
      → Fresh state
      → Fresh (with_memory services cfg citation load_context request state)
  unfolding with_memory
  with_memory-Fresh state h = elim (Option-cases load_context) [
    | inl q ↦ rw q h
    | inr (load, q) ↦ rw q h
  ]

  intent_node-Fresh :
      (state after : AgentState F V)
      → intent_node services cfg state ≡ ok after
      → Fresh state
      → Fresh after
  unfolding intent_node with_intent
  intent_node-Fresh state after h f =
      let (intent, _, built) =
        >>=-eq-ok
          (if cfg.enable_dynamic_intent
            then dynamic_intent services cfg state.question
            else ok (classify_by_rules services.lower state.question state.intent))
          (λ intent. ok (with_intent services cfg state intent)) {out = after} h in
      let e : after ≡ with_intent services cfg state intent = ground (arith, built) in rw e f

  retrieval_node-Fresh :
      (state after : AgentState F V)
      → retrieval_node services cfg state ≡ ok after
      → Fresh state
      → Fresh after
  unfolding retrieval_node with_chunks
  retrieval_node-Fresh state after h f = elim (Bool-cases (nonempty state.resource_ids)) [
    | inl resources ↦
        let (chunks, _, built) =
          >>=-eq-ok (chunks_or_none services cfg (invoke services cfg state))
            (λ chunks. ok (with_chunks services cfg state chunks)) {out = after}
            (ground (arith, h, resources)) in
        let e : after ≡ with_chunks services cfg state chunks = ground (arith, built) in
        let given : nonempty request.resource_ids ≡ true = ap nonempty (sym f.2) ∙ resources in
        rw e (refl, f.1, f.2, inr given)
    | inr nothing ↦
        let e : after ≡ with_chunks services cfg state [] = ground (arith, h, nothing) in
        rw e (refl, f.1, f.2, inl refl)
  ]

  retrieve_step-Fresh :
      (state after : AgentState F V)
      → (retrieve_step services cfg citation load_context state).1 ≡ ok after
      → Fresh state
      → Fresh after
  unfolding retrieve_step
  retrieve_step-Fresh state after h f =
      retrieval_node-Fresh state after
        (run_node-ok F (codes "retrieve") (retrieval_node services cfg state) _ after h) f

  answering-Fresh :
      (state : AgentState F V) (chosen : AgentState F V × Text)
      → (answering services cfg citation load_context state).1 ≡ ok chosen
      → Fresh state
      → Fresh chosen.0
  unfolding answering
  answering-Fresh state chosen h f =
      let (after, step, built) =
        then_run-ok (retrieve_step services cfg citation load_context state)
          (λ after. ([], ok (after, answer_branch services cfg citation load_context after))) chosen
          h in
      let e : chosen.0 ≡ after = ground (arith, built) in
      rw e (retrieve_step-Fresh state after step f)

  summarizing-Fresh :
      (state : AgentState F V) (branch : Text) (chosen : AgentState F V × Text)
      → (summarizing services cfg citation load_context state branch).1 ≡ ok chosen
      → Fresh state
      → Fresh chosen.0
  unfolding summarizing
  summarizing-Fresh state branch chosen h f =
      elim (Bool-cases (
        text_eqb branch (codes "summarize")
        && nonempty state.resource_ids
        && not (nonempty state.retrieved_chunks))) [
          | inl retrieves ↦
              let (after, step, built) =
                then_run-ok (retrieve_step services cfg citation load_context state)
                  (λ after. ([], ok (after, branch))) chosen (ground (arith, h, retrieves)) in
              let e : chosen.0 ≡ after = ground (arith, built) in
              rw e (retrieve_step-Fresh state after step f)
          | inr plain ↦ let e : chosen.0 ≡ state = ground (arith, h, plain) in rw e f
        ]

  choose_branch-Fresh :
      (state : AgentState F V) (chosen : AgentState F V × Text)
      → (choose_branch services cfg citation load_context state).1 ≡ ok chosen
      → Fresh state
      → Fresh chosen.0
  unfolding choose_branch
  choose_branch-Fresh state chosen h f =
      elim (Bool-cases (text_in (route_by_intent state) (codes "qa" ∷ codes "compare" ∷ []))) [
        | inl answers ↦ answering-Fresh state chosen (ground (arith, h, answers)) f
        | inr other ↦
            summarizing-Fresh state (route_by_intent state) chosen (ground (arith, h, other)) f
      ]

  prepare-Fresh :
      (state : AgentState F V) (chosen : AgentState F V × Text)
      → (prepare services cfg citation load_context request state).1 ≡ ok chosen
      → Fresh state
      → Fresh chosen.0
  unfolding prepare
  prepare-Fresh state chosen h f =
      let start = with_memory services cfg citation load_context request state in
      let (after, first, rest) =
        then_run-ok (run_node (codes "intent") (intent_node services cfg start) _)
          (choose_branch services cfg citation load_context) chosen h in
      choose_branch-Fresh after chosen rest (
        intent_node-Fresh start after (run_node-ok F (codes "intent") _ _ after first)
          (with_memory-Fresh state f))

  generate-Fresh :
      (state after : AgentState F V) (branch : Text)
      → (generate services cfg citation load_context state branch).1 ≡ ok (some after)
      → Fresh state
      → Fresh after
  unfolding generate then_run end_generation with_draft
  generate-Fresh state after branch h f =
      let stream = stream_generation services cfg state branch in
      let (text, _, built) =
        then_run-ok (consume {F = F} stream.chunks stream.failure [] 0 0)
          (end_generation services cfg citation load_context state branch) (some after) h in
      elim (Option-cases text) [
        | inl q ↦ absurd (ground (arith, built, q))
        | inr (draft, q) ↦
            let e : after ≡ with_draft services cfg citation load_context state draft =
              ground (arith, built, q) in
            rw e f
      ]

  -- The validation passes at once, since there are no citations yet.
  validate_loop-first :
      (limit : ℕ) (state after : AgentState F V)
      → 1 ≤ limit
      → (validate_loop services cfg citation load_context limit state).1 ≡ ok after
      → Fresh state
      → (after.iterations ≡ n + 1)
        × (after.low_confidence ≡ false)
        × (after.resource_ids ≡ request.resource_ids)
        × ((after.retrieved_chunks ≡ []) ⊎ (nonempty request.resource_ids ≡ true))
  unfolding validate_loop passes route_after_validate validate_node
  validate_loop-first zero state after one h f = absurd (omega arith)
  validate_loop-first (suc limit) state after one h f =
      let again = validate_loop services cfg citation load_context limit in
      let (checked, first, rest) =
        then_run-ok (run_node {F = F} (codes "validate") (ok (validate_node cfg state)) _)
          (λ checked.
            if passes services cfg citation load_context checked
            then ([], ok checked)
            else then_run (retrieve_step services cfg citation load_context checked) again)
          after h in
      let node : ok (validate_node cfg state) ≡ ok checked =
        run_node-ok F (codes "validate") (ok (validate_node cfg state)) _ checked first in
      let same : checked ≡ validate_node cfg state = ground (arith, node) in
      let valid : checked.validation_passed ≡ true = ground (arith, same, f.0) in
      let e : after ≡ checked = ground (arith, rest, valid) in
      let low : checked.low_confidence ≡ false = ground (arith, same, f.0) in
      let count : checked.iterations ≡ n + 1 = ground (arith, same, f.1) in
      let ids : checked.resource_ids ≡ state.resource_ids = ground (arith, same) in
      let chunks : checked.retrieved_chunks ≡ state.retrieved_chunks = ground (arith, same) in
      rw e (
        count,
        low,
        ids ∙ f.2,
        elim f.3 [ inl none_found ↦ inl (chunks ∙ none_found) | inr given ↦ inr given ],
      )

  -- The resource of a citation is one of those that are asked for.
  abbrev pub IsCited : Citation F → Type 0
  IsCited c = text_in c.resource_id request.resource_ids ≡ true

  run_citations-IsCited :
      (state : AgentState F V)
      → (state.retrieved_chunks ≡ []) ⊎ (nonempty request.resource_ids ≡ true)
      → All IsCited (run_citations services cfg citation load_context request state)
  unfolding run_citations
  run_citations-IsCited state h = elim (Option-cases citation) [
    | inl q ↦ rw (run_citations, q) tt
    | inr (settings, q) ↦ elim (Bool-cases (nonempty state.retrieved_chunks)) [
      | inr nothing ↦ rw (run_citations, q, nothing) tt
      | inl found ↦ elim h [
        | inl none_found ↦ absurd (ground (arith, found, none_found))
        | inr given ↦
            rw (run_citations, q, found)
              (build_citations-authorized settings.digit settings.max_chars settings.max_citations
                state.draft_answer state.retrieved_chunks request.resource_ids given)
      ]
    ]
  ]

  with_citations-IsCited :
      (state : AgentState F V)
      → (state.retrieved_chunks ≡ []) ⊎ (nonempty request.resource_ids ≡ true)
      → All IsCited (with_citations services cfg citation load_context request state).citations
  unfolding with_citations
  with_citations-IsCited state h = run_citations-IsCited state h

  -- What a run that is done leaves
  abbrev pub IsFinal : AgentState F V → Type 0
  IsFinal state =
      (state.iterations ≡ n + 1) × (state.low_confidence ≡ false) × All IsCited state.citations

  run_nodes-IsFinal :
      (start state : AgentState F V)
      → 1 ≤ cfg.recursion_limit
      → (run_nodes services cfg citation load_context request start).1 ≡ ok (some state)
      → Fresh start
      → IsFinal state
  unfolding run_nodes finish with_citations
  run_nodes-IsFinal start state one h f =
      let ready = prepare services cfg citation load_context request start in
      let answer = λ (chosen : AgentState F V × Text).
        generate services cfg citation load_context chosen.0 chosen.1 in
      let (drafted, generated, closed) =
        then_run-ok (then_run ready answer) (finish services cfg citation load_context request)
          (some state) h in
      let (chosen, prepared, draft) = then_run-ok ready answer drafted generated in
      elim (Option-cases drafted) [
        | inl q ↦ absurd (ground (arith, closed, q))
        | inr (after, q) ↦
            let next : AgentState F V → Run F (Option (AgentState F V)) = λ valid.
              let cited = with_citations services cfg citation load_context request valid in
              (closing services cfg citation load_context cited, ok (some cited)) in
            let (valid, looped, built) =
              then_run-ok
                (validate_loop services cfg citation load_context cfg.recursion_limit after) next
                (some state)
                (ap (λ d. (finish services cfg citation load_context request d).1) (sym q)
                  ∙ closed) in
            let fresh =
              generate-Fresh chosen.0 after chosen.1 (draft ∙ ap ok q)
                (prepare-Fresh start chosen prepared f) in
            let (count, low, ids, chunks) =
              validate_loop-first cfg.recursion_limit after valid one looped fresh in
            let e : state ≡ with_citations services cfg citation load_context request valid =
              ground (arith, built) in
            rw e (count, low, with_citations-IsCited valid chunks)
      ]

module _ {F V : Type 0} (services : AgentServices F V) (cfg : AgentConfig)
    (citation : Option CitationSettings) (load_context : Option (Text → Text → Text → Text)) where
  conclude-final :
      (request : AgentRunRequest F) (checkpoints : List (Text × AgentState F V))
      (m : Run F (Option (AgentState F V))) (state : AgentState F V)
      → (conclude services cfg citation load_context request checkpoints m).final ≡ some state
      → (m.1 ≡ ok (some state))
        × (lookup request.conversation_id
              (conclude services cfg citation load_context request checkpoints m).checkpoints
            ≡ some state)
  unfolding conclude
  conclude-final request checkpoints (events, raise e) state h = cc
  conclude-final request checkpoints (events, ok none) state h = cc
  conclude-final request checkpoints (events, ok (some x)) state h =
      let e : x ≡ state = ground (arith, h) in
      (
        ap (λ y. ok (some y)) e,
        lookup-insert request.conversation_id request.conversation_id x checkpoints
            ∙ rw (text_eqb_refl request.conversation_id) (ap some e),
      )

  -- With one validation at least, a run that is done has one iteration more than the last run of the
  -- conversation that was saved, is not of low confidence, cites only resources of the request, and is
  -- the one that is saved for the conversation.
  pub run_stream-IsFinal :
      (request : AgentRunRequest F) (checkpoints : List (Text × AgentState F V))
      (state : AgentState F V)
      → 1 ≤ cfg.recursion_limit
      → (run_stream services cfg citation load_context request checkpoints).final ≡ some state
      → IsFinal services cfg citation load_context request
          (previous_iterations services cfg citation load_context request.conversation_id
            checkpoints)
          state
        × (lookup request.conversation_id
              (run_stream services cfg citation load_context request checkpoints).checkpoints
            ≡ some state)
  unfolding run_stream start_state initial_state
  run_stream-IsFinal request checkpoints state one h =
      let start = start_state services cfg citation load_context request checkpoints in
      let (returned, saved) =
        conclude-final request checkpoints
          (run_nodes services cfg citation load_context request start) state h in
      (
        run_nodes-IsFinal services cfg citation load_context request
            (previous_iterations services cfg citation load_context request.conversation_id
              checkpoints)
            start state one returned (refl, refl, refl, inl refl),
        saved,
      )
