-- ===== src/Tests/Answers.antt =====
-- Witnesses for question answering: one source, and a stream of two chunks.
use mkc.Prelude.{
  ℕ, ◌-◌, leb, Option, none, some, [], ◌∷◌, ◌≡◌, refl, ◌&&◌, arith, if◌then◌else◌, All,
}
use mkc.Prelude.Text.{codes}
use mkc.Exceptions.{ok}
use mkc.Models.{RetrievalChunk}
use mkc.Agent.{unfinished, stop}
use mkc.Qa.{QaRequest, QaServices, are_valid, stream_answer}
use mkc.Qa.Shape.{IsStream, stream_answer-IsStream}
use mkc.Qa.Cites.{CitesOnly, stream_answer-CitesOnly}
use mkc.Tests.{ℕ_float}

abbrev digit : ℕ → Option ℕ
digit c = if leb b'0' c && leb c b'9' then some (c - b'0') else none

abbrev source_chunk : RetrievalChunk ℕ ℕ
source_chunk = record {
  chunk_id = 1 ∷ [];
  resource_id = 7 ∷ [];
  text = codes "text";
  score = 1;
  metadata = [];
}

abbrev services : QaServices ℕ ℕ
services = record {
  rag = λ request.
      ok (record { chunks = source_chunk ∷ []; prompt = codes "prompt"; context_token_count = 1 });
  llm = λ request. record {
    chunks =
        record { delta = codes "yes"; reasoning_delta = codes "hm"; finish_reason = unfinished }
        ∷ record { delta = codes "[^1]"; reasoning_delta = []; finish_reason = stop }
        ∷ [];
    failure = none;
  };
  citation = some (record { digit = digit; max_chars = 20; max_citations = 5 });
  load_context = some (λ user_id conversation_id question. codes "context");
  default_temperature = 7;
}

abbrev request : QaRequest ℕ
request = record {
  question = codes "why?";
  conversation_id = 2 ∷ [];
  message_id = 3 ∷ [];
  user_id = 4 ∷ [];
  resource_ids = (7 ∷ []) ∷ [];
  history = record { role = codes "user"; content = codes "hello" } ∷ [];
  top_k = none;
  score_threshold = none;
  max_context_tokens = none;
  temperature = none;
  max_tokens = some 100;
}

stream_answer-IsStream_example :
    ((stream_answer ℕ_float services request).failure ≡ none)
    × IsStream ℕ_float services request (stream_answer ℕ_float services request)
unfolding are_valid
stream_answer-IsStream_example =
    stream_answer-IsStream ℕ_float services request refl refl (λ r result h. ground (arith, h))

stream_answer-CitesOnly_example :
    All (CitesOnly ((7 ∷ []) ∷ [])) (stream_answer ℕ_float services request).events
unfolding are_valid
stream_answer-CitesOnly_example =
    stream_answer-CitesOnly ℕ_float services request refl refl (λ r result h. ground (arith, h))
