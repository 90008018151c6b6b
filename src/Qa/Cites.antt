-- ===== src/Qa/Cites.antt =====
-- What a stream cites.
use mkc.Prelude.{
  ℕ, suc, true, Option, none, some, List, [], ◌∷◌, map, All, All-append, ◌≡◌, Bool-cases,
  Option-cases, arith, inl, inr,
}
use mkc.Prelude.Text.{Text, text_in, nonempty}
use mkc.Prelude.Order.{Float}
use mkc.Exceptions.{ok}
use mkc.Models.{RetrievalRequest, RetrievalResult}
use mkc.Citation.{Citation}
use mkc.Citation.Validate.{build_citations-authorized}
use mkc.Qa.{
  QaRequest, QaEvent, chunk_event, reasoning_event, citation_event, done_event, error_event,
  QaServices, Outcome, are_valid, citations_for, retrieve_for, chunks_of, stream_answer,
  failed_with,
}
use mkc.Qa.Deltas.{Deltas, streamed}
use mkc.Qa.Shape.{IsStream, stream_answer-IsStream}

-- A citation is of one of the resources; other events cite nothing.
abbrev pub CitesOnly : {F : Type 0} → List Text → QaEvent F → Type 0
CitesOnly resource_ids (citation_event c) = text_in c.resource_id resource_ids ≡ true
CitesOnly resource_ids (_) = Unit

Deltas-CitesOnly :
    {F : Type 0} (ids : List Text) (i j : ℕ) (events : List (QaEvent F))
    → Deltas i j events
    → All (CitesOnly ids) events
Deltas-CitesOnly ids i j [] h = tt
Deltas-CitesOnly ids i j (chunk_event d k ∷ es) h = (tt, Deltas-CitesOnly ids (suc i) j es h.1)
Deltas-CitesOnly ids i j (reasoning_event d k ∷ es) h = (tt, Deltas-CitesOnly ids i (suc j) es h.1)
Deltas-CitesOnly ids i j (citation_event c ∷ es) h = absurd h
Deltas-CitesOnly ids i j (done_event n d ∷ es) h = absurd h
Deltas-CitesOnly ids i j (error_event c r ∷ es) h = absurd h

map-CitesOnly :
    {F : Type 0} (ids : List Text) (cs : List (Citation F))
    → All (λ c. text_in c.resource_id ids ≡ true) cs
    → All (CitesOnly ids) (map citation_event cs)
map-CitesOnly ids [] h = tt
map-CitesOnly ids (c ∷ cs) h = (h.0, map-CitesOnly ids cs h.1)

module _ {F V : Type 0} (fl : Float F) (services : QaServices F V) (request : QaRequest F) where
  retrieve_for-nonempty :
      (result : RetrievalResult F V)
      → retrieve_for fl services request ≡ ok (some result)
      → nonempty request.resource_ids ≡ true
  unfolding retrieve_for
  retrieve_for-nonempty result found = elim (Bool-cases (nonempty request.resource_ids)) [
    | inl given ↦ given
    | inr none_given ↦ absurd (ground (arith, found, none_given))
  ]

  citations_for-authorized :
      (answer : Text) (result : Option (RetrievalResult F V))
      → retrieve_for fl services request ≡ ok result
      → All
          (λ c. text_in c.resource_id request.resource_ids ≡ true)
          (citations_for fl services request answer (chunks_of fl services result))
  unfolding citations_for chunks_of
  citations_for-authorized answer none found = elim (Option-cases services.citation) [
    | inl q ↦ rw (citations_for, q) tt
    | inr (settings, q) ↦ rw (citations_for, q) tt
  ]
  citations_for-authorized answer (some result) found = elim (Option-cases services.citation) [
    | inl q ↦ rw (citations_for, q) tt
    | inr (settings, q) ↦ elim (Bool-cases (nonempty result.chunks)) [
      | inr empty ↦ rw (citations_for, q, empty) tt
      | inl given ↦
          rw (citations_for, q, given)
            (build_citations-authorized settings.digit settings.max_chars settings.max_citations
              answer result.chunks request.resource_ids (retrieve_for-nonempty result found))
    ]
  ]

  IsStream-CitesOnly :
      (o : Outcome F)
      → IsStream fl services request o
      → All (CitesOnly request.resource_ids) o.events
  unfolding failed_with
  IsStream-CitesOnly o (inl (result, sent, found, deltas, e, saved)) = rw e (
      All-append _ sent _ (Deltas-CitesOnly request.resource_ids 0 0 sent deltas) (
        All-append _ (map citation_event _) _
          (map-CitesOnly request.resource_ids _
            (citations_for-authorized (streamed sent) result found))
          (tt, tt)))
  IsStream-CitesOnly o (inr (inl (result, sent, index, found, deltas, given, at, e, saved))) =
      rw e
        (All-append _ sent _ (Deltas-CitesOnly request.resource_ids 0 0 sent deltas) (tt, (tt, tt)))
  IsStream-CitesOnly o (inr (inr (sent, code, deltas, e, saved))) =
      rw e (All-append _ sent _ (Deltas-CitesOnly request.resource_ids 0 0 sent deltas) (tt, tt))

-- With a question and a history that are not empty, and an engine that gives no empty prompt, a stream
-- cites only resources of the request, whatever chunks the engine returns.
pub stream_answer-CitesOnly :
    {F V : Type 0} (fl : Float F) (services : QaServices F V) (request : QaRequest F)
    → nonempty request.question ≡ true
    → are_valid request.history ≡ true
    → ((r : RetrievalRequest F) (result : RetrievalResult F V)
        → services.rag r ≡ ok result
        → nonempty result.prompt ≡ true)
    → All (CitesOnly request.resource_ids) (stream_answer fl services request).events
stream_answer-CitesOnly fl services request asked history prompts =
    IsStream-CitesOnly fl services request (stream_answer fl services request)
      (stream_answer-IsStream fl services request asked history prompts).1
