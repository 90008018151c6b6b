-- ===== src/Llm/Relay.antt =====
-- `format_sse_stream` and `sync_format_sse_stream` of ai-service/app/services/llm/llm_client.py. Where an event loop
-- is running, a thread puts the items of the stream on a queue, and the caller takes them off it; the
-- two take their steps in any order.
pub mod Runs
pub mod Ends
use mkc.Prelude.{Option, none, some, List, [], ◌∷◌, ◌++◌, map, ◌≡◌}
use mkc.Prelude.Text.{Text, codes}
use mkc.Exceptions.{Exception}
use mkc.Agent.{LlmStreamChunk}

-- What an iteration gives: texts, and then its end or an exception
pub record Source : Type 0 where
  pub texts : List Text
  pub failure : Option Exception

-- `format_sse_stream`; `dump` is `model_dump_json`. Its last event is sent if the stream ends.
unfoldable pub format_sse_stream :
    (LlmStreamChunk → Text) → List LlmStreamChunk → Option Exception → Source
format_sse_stream dump chunks failure =
    let events =
      map (λ chunk. codes "event: message\ndata: " ++ (dump chunk ++ codes "\n\n")) chunks in
    elim failure [
      | none ↦ record {
        texts = events ++ (codes "event: done\ndata: {\"finish_reason\":\"stop\"}\n\n" ∷ []);
        failure = none;
      }
      | some e ↦ record { texts = events; failure = some e }
    ]

-- What a caller has of the iteration: it goes on, it is over, or it raised.
pub data Progress : Type 0 where
  running over : Progress
  raised : Exception → Progress

-- The path with no running loop: each text is yielded as it comes.
unfoldable pub drive : Source → List Text × Progress
drive source = elim source.failure [
  | none ↦ (source.texts, over)
  | some e ↦ (source.texts, raised e)
]

-- An item of the queue
pub data Item : Type 0 where
  text : Text → Item
  exception : Exception → Item
  sentinel : Item

-- The items that `_consume` puts, in their order
unfoldable pub ending : Option Exception → List Item
ending none = sentinel ∷ []
ending (some e) = exception e ∷ sentinel ∷ []

unfoldable pub puts : Source → List Item
puts source = map text source.texts ++ ending source.failure

-- The items that the thread has still to put, the queue, and what the caller has yielded
pub record State : Type 0 where
  pub to_put : List Item
  pub queue : List Item
  pub yielded : List Text
  pub progress : Progress

unfoldable pub start : Source → State
start source = record { to_put = puts source; queue = []; yielded = []; progress = running }

-- A step of the thread, `q.put(...)`, or of the caller, `q.get()` and what it does with the item. The
-- caller waits where the queue is empty.
pub data Step (s : State) : State → Type 0 where
  put :
      (item : Item) (rest : List Item)
      → s.to_put ≡ item ∷ rest
      → Step s (record s { to_put = rest; queue = s.queue ++ (item ∷ []) })
  get_text :
      (t : Text) (rest : List Item)
      → s.progress ≡ running
      → s.queue ≡ text t ∷ rest
      → Step s (record s { queue = rest; yielded = s.yielded ++ (t ∷ []) })
  get_exception :
      (e : Exception) (rest : List Item)
      → s.progress ≡ running
      → s.queue ≡ exception e ∷ rest
      → Step s (record s { queue = rest; progress = raised e })
  get_sentinel :
      (rest : List Item)
      → s.progress ≡ running
      → s.queue ≡ sentinel ∷ rest
      → Step s (record s { queue = rest; progress = over })

pub data Reach (s : State) : State → Type 0 where
  here : Reach s s
  next : {t u : State} → Reach s t → Step t u → Reach s u
