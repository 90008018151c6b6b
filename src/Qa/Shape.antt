-- ===== src/Qa/Shape.antt =====
-- The three shapes of a stream: an answer with its citations, a fallback, or an error.
use mkc.Prelude.{
  ℕ, true, false, Option, none, some, List, [], ◌∷◌, ◌++◌, map, length, ◌≡◌, ◌⊎◌, inl, inr, refl,
  arith, Bool-cases, Option-cases,
}
use mkc.Prelude.Text.{Text, codes, nonempty}
use mkc.Prelude.Order.{Float}
use mkc.Exceptions.{Exception, ok, raise, Result-cases, code_of}
use mkc.Models.{RetrievalRequest, RetrievalResult}
use mkc.Llm.{is_retried}
use mkc.Qa.{
  Message, QaRequest, QaEvent, chunk_event, citation_event, done_event, QaServices, Outcome, Ending,
  answered, broken, raised, consume, failed_with, retrieval_error, fallback_answer, degrade,
  build_messages, are_valid, llm_request, LlmRequest, temperature_of, max_tokens_of,
  retrieval_request, retrieve_for, citations_for, turn_of, chunks_of, conclude, memory_context,
  prompt_for, answer_with, stream_answer,
}
use mkc.Qa.Deltas.{Deltas, streamed, chunk_count, Follows, consume-Follows}

are_valid-append :
    (xs ys : List Message) → are_valid xs ≡ true → are_valid ys ≡ true → are_valid (xs ++ ys) ≡ true
unfolding are_valid
are_valid-append [] ys h k = k
are_valid-append (x ∷ xs) ys h k = ground (arith, are_valid-append xs ys)

history-are_valid :
    {F : Type 0} (request : QaRequest F) (prompt : Text)
    → are_valid request.history ≡ true
    → nonempty prompt ≡ true
    → are_valid (request.history ++ (record { role = codes "user"; content = prompt } ∷ [])) ≡ true
unfolding are_valid
history-are_valid request prompt history given =
    are_valid-append request.history (record { role = codes "user"; content = prompt } ∷ []) history
      (rw given refl)

module _ {F V : Type 0} (fl : Float F) (services : QaServices F V) (request : QaRequest F) where
  -- `LLMRequest` with valid messages
  abbrev llm_call : List Message → LlmRequest F
  llm_call messages = record {
    messages = messages;
    temperature = temperature_of fl services request.temperature;
    max_tokens = max_tokens_of fl services request.max_tokens;
  }

  llm_request-eq-ok :
      (messages : List Message)
      → are_valid messages ≡ true
      → llm_request fl services request messages ≡ ok (llm_call messages)
  unfolding llm_request
  llm_request-eq-ok messages valid = rw valid refl

  retrieve_for-rag :
      (result : RetrievalResult F V)
      → retrieve_for fl services request ≡ ok (some result)
      → services.rag (retrieval_request fl services request) ≡ ok result
  unfolding retrieve_for
  retrieve_for-rag result h = ground arith

  conclude-failure :
      (result : Option (RetrievalResult F V)) (sent : List (QaEvent F)) (ending : Ending)
      → (conclude fl services request result sent ending).failure ≡ none
  unfolding conclude
  conclude-failure result sent (answered text) = refl
  conclude-failure result sent (broken index) = refl
  conclude-failure result sent (raised e) = refl

build_messages-are_valid :
    {F : Type 0} (request : QaRequest F) (prompt context : Text)
    → are_valid request.history ≡ true
    → nonempty prompt ≡ true
    → are_valid (build_messages request prompt context) ≡ true
unfolding build_messages are_valid
build_messages-are_valid request prompt [] history given =
    history-are_valid request prompt history given
build_messages-are_valid request prompt (c ∷ context) history given =
    history-are_valid request prompt history given

module _ {F V : Type 0} (fl : Float F) (services : QaServices F V) (request : QaRequest F) where
  turn_of-cases :
      (answer : Text)
      → ((services.load_context ≡ none) × (turn_of fl services request answer ≡ none))
        ⊎ ((load : Text → Text → Text → Text) × (services.load_context ≡ some load)
            × (turn_of fl services request answer ≡ some (request.question, answer)))
  unfolding turn_of
  turn_of-cases answer = elim (Option-cases services.load_context) [
    | inl q ↦ inl (q, rw q refl)
    | inr (load, q) ↦ inr (load, q, rw q refl)
  ]

  -- Deltas, a citation for each citation of the answer, and `done`; with a memory service the question is
  -- saved with the answer.
  abbrev pub IsAnswered : Outcome F → Type 0
  IsAnswered o =
      (result : Option (RetrievalResult F V)) × (sent : List (QaEvent F)) × (retrieve_for fl
          services request
        ≡ ok result)
      × Deltas 0 0 sent
      × (let citations =
            citations_for fl services request (streamed sent) (chunks_of fl services result) in
          o.events
          ≡ sent ++ (map citation_event citations ++ (done_event (length citations) false ∷ [])))
      × (((services.load_context ≡ none) × (o.saved_turn ≡ none))
          ⊎ ((load : Text → Text → Text → Text) × (services.load_context ≡ some load)
              × (o.saved_turn ≡ some (request.question, streamed sent))))

  -- Deltas, the fallback as one more, and `done`
  abbrev pub IsDegraded : Outcome F → Type 0
  IsDegraded o =
      (result : Option (RetrievalResult F V)) × (sent : List (QaEvent F)) × (index : ℕ)
      × (retrieve_for fl services request ≡ ok result)
      × Deltas 0 0 sent
      × (nonempty (fallback_answer result) ≡ true)
      × ((index ≡ chunk_count sent) ⊎ (index ≡ 0))
      × (o.events ≡ sent ++ (chunk_event (fallback_answer result) index ∷ done_event 0 true ∷ []))
      × (o.saved_turn ≡ none)

  -- Deltas and an error
  abbrev pub IsFailed : Outcome F → Type 0
  IsFailed o =
      (sent : List (QaEvent F)) × (code : Text) × Deltas 0 0 sent
      × (o.events ≡ sent ++ (failed_with code ∷ []))
      × (o.saved_turn ≡ none)

  abbrev pub IsStream : Outcome F → Type 0
  IsStream o = IsAnswered o ⊎ IsDegraded o ⊎ IsFailed o

  degrade-IsStream :
      (result : Option (RetrievalResult F V)) (sent : List (QaEvent F)) (index : ℕ) (code : Text)
      → retrieve_for fl services request ≡ ok result
      → Deltas 0 0 sent
      → (index ≡ chunk_count sent) ⊎ (index ≡ 0)
      → IsStream
          (record { events = sent ++ degrade result index code; failure = none; saved_turn = none })
  unfolding degrade
  degrade-IsStream result sent index code found deltas at =
      elim (Bool-cases (nonempty (fallback_answer result))) [
        | inl given ↦ inr (inl (result, sent, index, found, deltas, given, at, rw given refl, refl))
        | inr empty ↦ inr (inr (sent, code, deltas, rw empty refl, refl))
      ]

  conclude-IsStream :
      (result : Option (RetrievalResult F V)) (sent : List (QaEvent F)) (ending : Ending)
      → retrieve_for fl services request ≡ ok result
      → Follows 0 0 [] (sent, ending)
      → IsStream (conclude fl services request result sent ending)
  unfolding conclude
  conclude-IsStream result sent (answered text) found h =
      inl (result, sent, found, h.0, rw h.1 refl, rw h.1 (turn_of-cases (streamed sent)))
  conclude-IsStream result sent (broken index) found h =
      degrade-IsStream result sent index (codes "LLM_TIMEOUT") found h.0 (inl (omega (arith, h.1)))
  conclude-IsStream result sent (raised e) found h = elim (Bool-cases (is_retried e)) [
    | inl llm ↦ rw llm (degrade-IsStream result sent 0 (code_of e) found h.0 (inr refl))
    | inr internal ↦ rw internal (inr (inr (sent, codes "LLM_STREAM_ERROR", h.0, refl, refl)))
  ]

  answer_with-IsStream :
      (result : Option (RetrievalResult F V))
      → retrieve_for fl services request ≡ ok result
      → are_valid request.history ≡ true
      → nonempty (prompt_for fl services request result) ≡ true
      → let o = answer_with fl services request result in (o.failure ≡ none) × IsStream o
  unfolding answer_with
  answer_with-IsStream result found history prompt =
      let messages =
        build_messages request (prompt_for fl services request result)
          (memory_context fl services request) in
      let valid =
        build_messages-are_valid request (prompt_for fl services request result)
          (memory_context fl services request) history prompt in
      let stream = services.llm (llm_call fl services request messages) in
      let sent : List (QaEvent F) × Ending = consume stream.chunks stream.failure [] 0 0 in
      rw (answer_with, llm_request-eq-ok fl services request messages valid)
        (
          conclude-failure fl services request result sent.0 sent.1,
          conclude-IsStream result sent.0 sent.1 found
              (consume-Follows F stream.chunks stream.failure [] 0 0),
        )

  stream_answer-raise :
      (e : Exception)
      → retrieve_for fl services request ≡ raise e
      → stream_answer fl services request ≡ record {
        events = failed_with (retrieval_error e) ∷ [];
        failure = none;
        saved_turn = none;
      }
  unfolding stream_answer
  stream_answer-raise e q = rw (stream_answer, q) refl

  stream_answer-ok :
      (result : Option (RetrievalResult F V))
      → retrieve_for fl services request ≡ ok result
      → stream_answer fl services request ≡ answer_with fl services request result
  unfolding stream_answer
  stream_answer-ok result q = rw (stream_answer, q) refl

-- With a question and a history that are not empty, and an engine that gives no empty prompt, the
-- stream ends without an exception, in one of three ways. Either the deltas are followed by the
-- citations of the answer that they make together and by `done` with their number; then the question
-- and that answer are saved where there is a memory service, and nothing is where there is none. Or
-- the deltas are followed by the fallback made of the retrieved chunks and by `done`, or by an error,
-- and nothing is saved. In all three the deltas are numbered from 0 on.
pub stream_answer-IsStream :
    {F V : Type 0} (fl : Float F) (services : QaServices F V) (request : QaRequest F)
    → nonempty request.question ≡ true
    → are_valid request.history ≡ true
    → ((r : RetrievalRequest F) (result : RetrievalResult F V)
        → services.rag r ≡ ok result
        → nonempty result.prompt ≡ true)
    → let o = stream_answer fl services request in
      (o.failure ≡ none) × IsStream fl services request o
unfolding prompt_for
stream_answer-IsStream fl services request asked history prompts =
    elim (Result-cases (retrieve_for fl services request)) [
      | inl (e, q) ↦
          rw (stream_answer-raise fl services request e q)
            (refl, inr (inr ([], retrieval_error e, tt, refl, refl)))
      | inr (none, q) ↦
          rw (stream_answer-ok fl services request none q)
            (answer_with-IsStream fl services request none q history asked)
      | inr (some result, q) ↦
          let given =
            prompts (retrieval_request fl services request) result
              (retrieve_for-rag fl services request result q) in
          rw (stream_answer-ok fl services request (some result) q)
            (answer_with-IsStream fl services request (some result) q history given)
    ]
