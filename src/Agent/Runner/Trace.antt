-- ===== src/Agent/Runner/Trace.antt =====
-- What is streamed of an answer is the answer.
use mathlib.Core.List.{append_assoc, append-nil}
use mkc.Prelude.{
  ℕ, suc, false, ◌||◌, Option, none, some, List, [], ◌∷◌, ◌++◌, keep_if, if◌then◌else◌, All, ◌≡◌,
  refl, ap, sym, ◌∙◌, arith, Bool-cases, inl, inr,
}
use mkc.Prelude.Text.{Text, nonempty}
use mkc.Exceptions.{Exception, ok, raise}
use mkc.Agent.{
  AgentState, AgentConfig, AgentServices, LlmStreamChunk, error, Event, node_start, node_end,
  chunk_event, reasoning_event, citation_event, done_event, error_event,
}
use mkc.Agent.Nodes.{is_final, relay, stream_generation}
use mkc.Agent.Runner.{
  Run, then_run, CitationSettings, is_error, consume, with_draft, end_generation, generate,
}

-- The deltas of the `chunk` events, put together
abbrev pub streamed : {F : Type 0} → List (Event F) → Text
streamed [] = []
streamed (chunk_event delta index ∷ events) = delta ++ streamed events
streamed (_ ∷ events) = streamed events

-- The `chunk` events are numbered from `i` on.
abbrev pub Indexed : {F : Type 0} → ℕ → List (Event F) → Type 0
Indexed i [] = Unit
Indexed i (chunk_event delta index ∷ events) = (index ≡ i) × Indexed (suc i) events
Indexed i (_ ∷ events) = Indexed i events

empty_of : (s : Text) → nonempty s ≡ false → s ≡ []
empty_of [] h = refl
empty_of (c ∷ s) h = absurd (ground (arith, h))

consume-streamed :
    (F : Type 0) (chunks : List LlmStreamChunk) (failure : Option Exception) (answer text : Text)
    (i j : ℕ)
    → (consume {F = F} chunks failure answer i j).1 ≡ ok (some text)
    → (text ≡ answer ++ streamed (consume {F = F} chunks failure answer i j).0)
      × Indexed i (consume {F = F} chunks failure answer i j).0
unfolding consume
consume-streamed F [] none answer text i j h =
    let e : text ≡ answer = ground (arith, h) in (e ∙ sym (append-nil answer), tt)
consume-streamed F [] (some e) answer text i j h = cc
consume-streamed F (chunk ∷ chunks) failure answer text i j h =
    let next = answer ++ chunk.delta in
    elim (Bool-cases (is_error chunk.finish_reason)) [
      | inl bad ↦ absurd (ground (arith, h, bad))
      | inr fine ↦ elim (Bool-cases (nonempty chunk.delta)) [
        | inl d ↦ elim (Bool-cases (nonempty chunk.reasoning_delta)) [
          | inl r ↦
              let (e, numbered) =
                consume-streamed F chunks failure next text (suc i) (suc j)
                  (ground (arith, h, fine, d, r)) in
              rw (fine, d, r) (e ∙ append_assoc answer chunk.delta _, (refl, numbered))
          | inr r ↦
              let (e, numbered) =
                consume-streamed F chunks failure next text (suc i) j
                  (ground (arith, h, fine, d, r)) in
              rw (fine, d, r) (e ∙ append_assoc answer chunk.delta _, (refl, numbered))
        ]
        | inr d ↦
            let same : next ≡ answer =
              ap (λ t. answer ++ t) (empty_of chunk.delta d) ∙ append-nil answer in
            elim (Bool-cases (nonempty chunk.reasoning_delta)) [
              | inl r ↦
                  let (e, numbered) =
                    consume-streamed F chunks failure next text i (suc j)
                      (ground (arith, h, fine, d, r)) in
                  rw (fine, d, r)
                    (
                      e
                          ∙ ap
                              (λ t. t ++ streamed (consume {F = F} chunks failure next i (suc j)).0)
                              same,
                      numbered,
                    )
              | inr r ↦
                  let (e, numbered) =
                    consume-streamed F chunks failure next text i j
                      (ground (arith, h, fine, d, r)) in
                  rw (fine, d, r)
                    (
                      e ∙ ap (λ t. t ++ streamed (consume {F = F} chunks failure next i j).0) same,
                      numbered,
                    )
            ]
      ]
    ]

append-streamed :
    {F : Type 0} (xs ys : List (Event F)) → streamed (xs ++ ys) ≡ streamed xs ++ streamed ys
append-streamed [] ys = refl
append-streamed (chunk_event delta index ∷ xs) ys =
    ap (λ t. delta ++ t) (append-streamed xs ys)
    ∙ sym (append_assoc delta (streamed xs) (streamed ys))
append-streamed (node_start node ∷ xs) ys = append-streamed xs ys
append-streamed (node_end node data_of ∷ xs) ys = append-streamed xs ys
append-streamed (reasoning_event delta index ∷ xs) ys = append-streamed xs ys
append-streamed (citation_event c ∷ xs) ys = append-streamed xs ys
append-streamed (done_event n low count ∷ xs) ys = append-streamed xs ys
append-streamed (error_event code ∷ xs) ys = append-streamed xs ys

append-Indexed :
    {F : Type 0} (i : ℕ) (xs : List (Event F)) (y : Event F)
    → ((k : ℕ) → Indexed k (y ∷ []))
    → Indexed i xs
    → Indexed i (xs ++ (y ∷ []))
append-Indexed i [] y last h = last i
append-Indexed i (chunk_event delta index ∷ xs) y last h =
    (h.0, append-Indexed (suc i) xs y last h.1)
append-Indexed i (node_start node ∷ xs) y last h = append-Indexed i xs y last h
append-Indexed i (node_end node data_of ∷ xs) y last h = append-Indexed i xs y last h
append-Indexed i (reasoning_event delta index ∷ xs) y last h = append-Indexed i xs y last h
append-Indexed i (citation_event c ∷ xs) y last h = append-Indexed i xs y last h
append-Indexed i (done_event n low count ∷ xs) y last h = append-Indexed i xs y last h
append-Indexed i (error_event code ∷ xs) y last h = append-Indexed i xs y last h

-- what the end of a generation adds streams nothing
end_generation-streamed :
    {F V : Type 0} (services : AgentServices F V) (cfg : AgentConfig)
    (citation : Option CitationSettings) (load_context : Option (Text → Text → Text → Text))
    (state after : AgentState F V) (branch : Text) (parts : Run F (Option Text)) (i : ℕ)
    → ((text : Text) → parts.1 ≡ ok (some text) → (text ≡ streamed parts.0) × Indexed i parts.0)
    → (then_run parts (end_generation services cfg citation load_context state branch)).1
      ≡ ok (some after)
    → let events =
        (then_run parts (end_generation services cfg citation load_context state branch)).0 in
      (after ≡ with_draft services cfg citation load_context state (streamed events))
      × Indexed i events
unfolding then_run end_generation
end_generation-streamed services cfg citation load_context state after branch (events, raise e) i p
      h =
    cc
end_generation-streamed services cfg citation load_context state after branch (events, ok none) i p
      h =
    cc
end_generation-streamed services cfg citation load_context state after branch
      (events, ok (some text)) i p h =
    let (e, numbered) = p text refl in
    let built : with_draft services cfg citation load_context state text ≡ after =
      ground (arith, h) in
    let whole : streamed (events ++ (node_end branch _ ∷ [])) ≡ text =
      append-streamed events (node_end branch _ ∷ []) ∙ append-nil (streamed events) ∙ sym e in
    (
      sym built ∙ ap (with_draft services cfg citation load_context state) (sym whole),
      append-Indexed i events (node_end branch _) (λ k. tt) numbered,
    )

-- The draft of an answer that was generated is what was streamed of it, or the fallback message where
-- that is nothing; and the streamed parts are numbered from 0.
generate-streamed :
    {F V : Type 0} (services : AgentServices F V) (cfg : AgentConfig)
    (citation : Option CitationSettings) (load_context : Option (Text → Text → Text → Text))
    (state after : AgentState F V) (branch : Text)
    → (generate services cfg citation load_context state branch).1 ≡ ok (some after)
    → let events = (generate services cfg citation load_context state branch).0 in
      (after ≡ record state {
        draft_answer = if nonempty (streamed events) then streamed events else cfg.fallback_message;
      })
      × Indexed 0 events
unfolding generate then_run with_draft
generate-streamed {F} services cfg citation load_context state after branch h =
    let stream = stream_generation services cfg state branch in
    end_generation-streamed services cfg citation load_context state after branch
      (consume {F = F} stream.chunks stream.failure [] 0 0) 0
      (λ text q. consume-streamed F stream.chunks stream.failure [] text 0 0 q) h

-- An error chunk with no delta ends the relayed stream as a `stop` does: the deltas before it are passed
-- on, and nothing tells of the error.
relay-error :
    (before rest : List LlmStreamChunk) (chunk : LlmStreamChunk) (failure : Option Exception)
    → All (λ c. is_final c.finish_reason ≡ false) before
    → chunk.delta ≡ []
    → chunk.reasoning_delta ≡ []
    → chunk.finish_reason ≡ error
    → relay (before ++ (chunk ∷ rest)) failure ≡ record {
      chunks = keep_if (λ c. nonempty c.delta || nonempty c.reasoning_delta) before;
      failure = none;
    }
unfolding relay keep_if is_final
relay-error [] rest chunk failure before_end d r e = ground (arith, d, r, e)
relay-error (c ∷ before) rest chunk failure before_end d r e =
    ground (arith, before_end.0, relay-error before rest chunk failure before_end.1 d r e)
