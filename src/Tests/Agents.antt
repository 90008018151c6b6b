-- ===== src/Tests/Agents.antt =====
-- Witnesses for the agent: a question about one resource, an answer of two parts, the first of which
-- has a marker.
use mkc.Prelude.{
  ℕ, ◌-◌, true, false, ◌&&◌, none, some, [], ◌∷◌, ◌≡◌, refl, arith, leb, if◌then◌else◌,
}
use mkc.Prelude.Text.{Text, codes, text_eqb, text_in}
use mkc.Prelude.Decimal.{decimal, digits_onto}
use mkc.Prelude.Dict.{lookup, insert}
use mkc.Exceptions.{ok}
use mkc.Models.{RetrievalChunk}
use mkc.Retrieval.{get_or}
use mkc.Citation.{
  pieces_text, marker_text, markers, find, citation_from_chunk, read_digits, match_digits,
  match_marker, scan_from, value_from, read_int, add_citation, number_markers, renumber,
  renumber_answer, format, validate_from, build_citations,
}
use mkc.Agent.{
  AgentRunRequest, AgentState, AgentConfig, AgentServices, LlmStreamChunk, FinishReason, unfinished,
  stop, classify_by_rules, route_by_intent, route_after_validate,
}
use mkc.Agent.Nodes.{
  is_final, relay, validate_node, with_intent, intent_node, top_k_or, invoke, chunks_or_none,
  with_chunks, retrieval_node, stream_generation,
}
use mkc.Agent.Runner.{
  then_run, run_node, CitationSettings, is_error, consume, Outcome, retrieve_step, with_memory,
  answer_branch, answering, choose_branch, with_draft, end_generation, generate, passes,
  validate_loop, run_citations, with_citations, closing, finish, prepare, run_nodes, initial_state,
  previous_iterations, start_state, conclude, run_stream,
}
use mkc.Agent.Runner.Ends.{EndsOnce, run_stream-EndsOnce}
use mkc.Agent.Runner.Finals.{IsFinal, run_stream-IsFinal}
use mkc.Tests.{value_of, some_of}

abbrev source_chunk : RetrievalChunk ℕ ℕ
source_chunk = record {
  chunk_id = 1 ∷ [];
  resource_id = 7 ∷ [];
  text = codes "text";
  score = 1;
  metadata = [];
}

abbrev part : Text → FinishReason → LlmStreamChunk
part delta reason = record { delta = delta; reasoning_delta = []; finish_reason = reason }

abbrev services : AgentServices ℕ ℕ
services = record {
  retrieve =
      λ request. ok (record { chunks = source_chunk ∷ []; prompt = []; context_token_count = 0 });
  complete = λ prompt. ok (codes "qa");
  stream_complete = λ messages. record {
    chunks = part (codes "yes[^1]") unfinished ∷ part (codes "!") stop ∷ [];
    failure = none;
  };
  web_context = λ question. ok [];
  lower = λ text. text;
  show_score = λ score. [];
}

abbrev cfg : AgentConfig
cfg = record {
  recursion_limit = 12;
  max_iterations = 3;
  default_intent = codes "qa";
  enable_dynamic_intent = false;
  enable_web_search = true;
  fallback_message = codes "sorry";
}

abbrev settings : CitationSettings
settings = record {
  digit = λ c. if leb b'0' c && leb c b'9' then some (c - b'0') else none;
  max_chars = 200;
  max_citations = 8;
}

abbrev request : AgentRunRequest ℕ
request = record {
  question = codes "why";
  conversation_id = 5 ∷ [];
  user_id = 1 ∷ [];
  resource_ids = (7 ∷ []) ∷ [];
  history = [];
  intent = some (codes "qa");
  enable_web_search = false;
  top_k = none;
  score_threshold = none;
  max_context_tokens = none;
}

abbrev begin : AgentState ℕ ℕ
begin = start_state services cfg (some settings) none request []

abbrev outcome : Outcome ℕ ℕ
outcome = run_stream services cfg (some settings) none request []

abbrev final : AgentState ℕ ℕ
final = some_of outcome.final begin

run_stream-EndsOnce_example : EndsOnce outcome.events
run_stream-EndsOnce_example = run_stream-EndsOnce services cfg (some settings) none request []

run_stream-IsFinal_example :
    IsFinal services cfg
      (some settings)
      none
      request
      (previous_iterations services cfg (some settings) none (5 ∷ []) [])
      final
    × (lookup (5 ∷ []) outcome.checkpoints ≡ some final)
unfolding run_stream conclude start_state initial_state previous_iterations run_nodes prepare finish
    closing with_citations run_citations validate_loop passes route_after_validate generate
    end_generation with_draft choose_branch answering answer_branch with_memory retrieve_step
    run_node then_run consume is_error stream_generation relay is_final retrieval_node with_chunks
    chunks_or_none invoke top_k_or intent_node with_intent classify_by_rules validate_node
    route_by_intent text_in text_eqb insert lookup get_or build_citations format number_markers
    read_int value_from add_citation find citation_from_chunk renumber_answer renumber pieces_text
    marker_text markers scan_from match_marker match_digits read_digits validate_from decimal
    digits_onto
run_stream-IsFinal_example =
    run_stream-IsFinal services cfg (some settings) none request [] final (omega arith) refl

abbrev drafted : AgentState ℕ ℕ
drafted =
    some_of (value_of (generate services cfg (some settings) none begin (codes "qa")).1 none) begin
