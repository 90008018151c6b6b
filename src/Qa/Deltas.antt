-- ===== src/Qa/Deltas.antt =====
-- The deltas that the loop over the chunks sends, and what its end says of them.
use mathlib.Core.List.{append_assoc, append-nil}
use mkc.Prelude.{
  ℕ, suc, ◌+◌, Option, none, some, List, [], ◌∷◌, ◌++◌, if◌then◌else◌, ◌≡◌, inl, inr, refl, subst,
  sym, ◌∙◌, arith, Bool-cases,
}
use mkc.Prelude.Text.{Text, nonempty}
use mkc.Exceptions.{Exception}
use mkc.Agent.{LlmStreamChunk}
use mkc.Agent.Runner.{is_error}
use mkc.Qa.{
  QaEvent, chunk_event, reasoning_event, Ending, answered, broken, raised, is_stop, consume,
}

module _ {F : Type 0} where
  -- Only deltas: those of the answer are numbered from `i` on, those of the reasoning from `j` on.
  abbrev pub Deltas : ℕ → ℕ → List (QaEvent F) → Type 0
  Deltas i j [] = Unit
  Deltas i j (chunk_event delta index ∷ events) = (index ≡ i) × Deltas (suc i) j events
  Deltas i j (reasoning_event delta index ∷ events) = (index ≡ j) × Deltas i (suc j) events
  Deltas i j (_ ∷ events) = ⊥

  -- The deltas of the answer, put together
  abbrev pub streamed : List (QaEvent F) → Text
  streamed [] = []
  streamed (chunk_event delta index ∷ events) = delta ++ streamed events
  streamed (_ ∷ events) = streamed events

  abbrev pub chunk_count : List (QaEvent F) → ℕ
  chunk_count [] = 0
  chunk_count (chunk_event delta index ∷ events) = suc (chunk_count events)
  chunk_count (_ ∷ events) = chunk_count events

  -- What the end of the loop says of the deltas before it
  abbrev pub Tells : ℕ → Text → List (QaEvent F) → Ending → Type 0
  Tells i answer sent (answered text) = text ≡ answer ++ streamed sent
  Tells i answer sent (broken index) = index ≡ i + chunk_count sent
  Tells i answer sent (raised e) = Unit

  abbrev pub Follows : ℕ → ℕ → Text → List (QaEvent F) × Ending → Type 0
  Follows i j answer (sent, ending) = Deltas i j sent × Tells i answer sent ending

  Follows-reasoning :
      (i j : ℕ) (answer delta : Text) (after : List (QaEvent F) × Ending)
      → Follows i (suc j) answer after
      → Follows i j answer (reasoning_event delta j ∷ after.0, after.1)
  Follows-reasoning i j answer delta (sent, answered text) h = ((refl, h.0), h.1)
  Follows-reasoning i j answer delta (sent, broken index) h = ((refl, h.0), h.1)
  Follows-reasoning i j answer delta (sent, raised e) h = ((refl, h.0), tt)

  Follows-chunk :
      (i j : ℕ) (answer delta : Text) (after : List (QaEvent F) × Ending)
      → Follows (suc i) j (answer ++ delta) after
      → Follows i j answer (chunk_event delta i ∷ after.0, after.1)
  Follows-chunk i j answer delta (sent, answered text) h =
      ((refl, h.0), h.1 ∙ append_assoc answer delta (streamed sent))
  Follows-chunk i j answer delta (sent, broken index) h = ((refl, h.0), omega (arith, h.1))
  Follows-chunk i j answer delta (sent, raised e) h = ((refl, h.0), tt)

  -- a chunk in front of what follows it
  consume-step :
      (i j : ℕ) (answer delta reasoning : Text) (after : List (QaEvent F) × Ending)
      → Follows
          (if nonempty delta then suc i else i)
          (if nonempty reasoning then suc j else j)
          (answer ++ delta)
          after
      → Follows i j answer (
        (if nonempty delta then chunk_event delta i ∷ [] else [])
            ++ ((if nonempty reasoning then reasoning_event reasoning j ∷ [] else []) ++ after.0),
        after.1,
      )
  consume-step i j answer [] [] after h = subst (λ a. Follows i j a after) (append-nil answer) h
  consume-step i j answer [] (r ∷ reasoning) after h =
      Follows-reasoning i j answer (r ∷ reasoning) after
        (subst (λ a. Follows i (suc j) a after) (append-nil answer) h)
  consume-step i j answer (c ∷ delta) [] after h = Follows-chunk i j answer (c ∷ delta) after h
  consume-step i j answer (c ∷ delta) (r ∷ reasoning) after h =
      Follows-chunk i j answer (c ∷ delta) (reasoning_event (r ∷ reasoning) j ∷ after.0, after.1)
        (Follows-reasoning (suc i) j (answer ++ (c ∷ delta)) (r ∷ reasoning) after h)

pub consume-Follows :
    (F : Type 0) (chunks : List LlmStreamChunk) (failure : Option Exception) (answer : Text)
    (i j : ℕ)
    → Follows i j answer (consume {F = F} chunks failure answer i j)
unfolding consume
consume-Follows F [] none answer i j = (tt, sym (append-nil answer))
consume-Follows F [] (some e) answer i j = (tt, tt)
consume-Follows F (chunk ∷ chunks) failure answer i j =
    let next = answer ++ chunk.delta in
    let sent = if nonempty chunk.delta then suc i else i in
    let thought = if nonempty chunk.reasoning_delta then suc j else j in
    let after : List (QaEvent F) × Ending =
      if is_error chunk.finish_reason
      then ([], broken sent)
      else if is_stop chunk.finish_reason
      then ([], answered next)
      else consume chunks failure next sent thought in
    let follows : Follows sent thought next after =
      elim (Bool-cases (is_error chunk.finish_reason)) [
        | inl bad ↦ rw bad (tt, omega arith)
        | inr fine ↦ elim (Bool-cases (is_stop chunk.finish_reason)) [
          | inl stops ↦ rw (fine, stops) (tt, sym (append-nil next))
          | inr more ↦ rw (fine, more) (consume-Follows F chunks failure next sent thought)
        ]
      ] in
    consume-step i j answer chunk.delta chunk.reasoning_delta after follows
