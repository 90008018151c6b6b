-- ===== src/Indexing.antt =====
-- ai-service/app/services/vector_indexing/vector_index_service.py: chunks of a document or of a
-- recording, embedded and stored. The vector store is the record `VectorStore`; a run gives the calls
-- of it that were made. `Value` holds what the metadata of these chunks holds.
pub mod Stored
pub mod Ranges
use mkc.Prelude.{
  ℕ, zero, suc, ◌+◌, ◌-◌, ◌≤◌, min, max, Bool, true, false, ◌&&◌, not, Option, none, some, List, [],
  ◌∷◌, ◌++◌, map, length, ltb, leb, if◌then◌else◌, ◌≡◌,
}
use mkc.Prelude.Text.{Text, codes, nonempty, strip, join}
use mkc.Prelude.Order.{Float}
use mkc.Prelude.Dict.{insert}
use mkc.Exceptions.{Exception, Result, ok, raise, ◌>>=◌}
use mkc.Chunking.{Config, Estimator, Chunk, Metadata}
use mkc.Chunking.Service.{chunk}
use mkc.Models.{VectorRecord}
use mkc.Memory.{ChunkInput}
use mkc.Embedding.{Embedding, EmbeddingConfig, Provider, embed}

pub data Value (F : Type 0) : Type 0 where
  int_value : ℕ → Value F
  float_value : F → Value F
  text_value : Text → Value F

-- A page of `PdfDocument`
pub record Page : Type 0 where
  pub page_number : ℕ
  pub text : Text

-- `AsrSegment`
pub record AsrSegment (F : Type 0) : Type 0 where
  pub start : F
  pub end : F
  pub text : Text
  pub confidence : Option F

-- A call of the vector store
pub data StoreCall (F : Type 0) : Type 0 where
  delete_by_resource : Text → Text → StoreCall F
  upsert : List (VectorRecord F (Value F)) → StoreCall F

-- What the two calls of the store return
pub record VectorStore (F : Type 0) : Type 0 where
  pub deleted : Text → Text → Result {0} Unit
  pub upserted : List (VectorRecord F (Value F)) → Result ℕ

-- An entry of `segment_ranges`
pub record Range (F : Type 0) : Type 0 where
  pub start : ℕ
  pub stop : ℕ
  pub time_start : F
  pub time_end : F

-- The loop of `_build_asr_text_ranges`, from `cursor` on; `first` is `not parts`.
unfoldable pub ranges_from :
    {F : Type 0} → Bool → ℕ → List (AsrSegment F) → List Text × List (Range F)
ranges_from first cursor [] = ([], [])
ranges_from {F} first cursor (segment ∷ segments) =
    let start = if first then cursor else cursor + 1 in
    let stop = start + length segment.text in
    let written = nonempty segment.text in
    let rest = ranges_from (first && not written) (if written then stop else cursor) segments in
    let added : List Text × List (Range F) = (
      segment.text ∷ rest.0,
      record { start = start; stop = stop; time_start = segment.start; time_end = segment.end }
          ∷ rest.1,
    ) in
    if written then added else rest

-- `_build_asr_text_ranges`
unfoldable pub build_asr_text_ranges : {F : Type 0} → List (AsrSegment F) → Text × List (Range F)
build_asr_text_ranges segments =
    let (parts, ranges) = ranges_from true 0 segments in (join (codes " ") parts, ranges)

module _ {F : Type 0} (fl : Float F) where
  -- The loop over the ranges of `_apply_time_ranges`
  unfoldable pub chunk_times :
      Chunk (Value F) → Option F → Option F → List (Range F) → Option F × Option F
  chunk_times c start_time end_time [] = (start_time, end_time)
  chunk_times c start_time end_time (r ∷ ranges) =
      let overlaps = ltb (max c.start_pos r.start) (min c.end_pos r.stop) in
      let earlier : Bool = elim start_time [ none ↦ true | some t ↦ not (fl.le t r.time_start) ] in
      let later : Bool = elim end_time [ none ↦ true | some t ↦ not (fl.le r.time_end t) ] in
      chunk_times c (if overlaps && earlier then some r.time_start else start_time)
        (if overlaps && later then some r.time_end else end_time) ranges

  unfoldable pub set_time : Text → Option F → Metadata (Value F) → Metadata (Value F)
  set_time name none metadata = metadata
  set_time name (some t) metadata = insert name (float_value t) metadata

  -- `_apply_time_ranges`
  unfoldable pub apply_time_ranges :
      List (Chunk (Value F)) → List (Range F) → List (Chunk (Value F))
  apply_time_ranges [] ranges = []
  apply_time_ranges (c ∷ cs) ranges =
      let (start_time, end_time) = chunk_times c none none ranges in
      record c {
        metadata =
            set_time (codes "end_time") end_time
              (set_time (codes "start_time") start_time c.metadata);
      }
      ∷ apply_time_ranges cs ranges

-- `zip(chunks, embeddings, strict=False)` and the records
unfoldable pub records :
    {F : Type 0}
    → Text
    → List (Chunk (Value F))
    → List (Embedding F)
    → List (VectorRecord F (Value F))
records user_id (c ∷ cs) (e ∷ es) =
    record {
      id = c.id;
      resource_id = c.resource_id;
      user_id = user_id;
      text = c.text;
      vector = e.vector;
      metadata = insert (codes "chunk_index") (int_value c.index) c.metadata;
    }
    ∷ records user_id cs es
records user_id _ _ = []

unfoldable pub inputs : {F : Type 0} → List (Chunk (Value F)) → List ChunkInput
inputs [] = []
inputs (c ∷ cs) = record { id = c.id; resource_id = c.resource_id; text = c.text } ∷ inputs cs

module _ {F : Type 0} (lower : Text → Text) (chunking : Config) (est : Estimator)
    (provider : Provider F) (embedding : EmbeddingConfig) (store : VectorStore F)
    (strategy : Option Text) where
  -- The two calls of the store
  unfoldable pub store_records :
      Text → Text → List (VectorRecord F (Value F)) → List (StoreCall F) × Result ℕ
  store_records user_id resource_id recs = elim (store.deleted resource_id user_id) [
    | raise e ↦ (delete_by_resource resource_id user_id ∷ [], raise e)
    | ok _ ↦ (delete_by_resource resource_id user_id ∷ upsert recs ∷ [], store.upserted recs)
  ]

  -- `_upsert_chunks`
  unfoldable pub upsert_chunks :
      Text → Text → List (Chunk (Value F)) → List (StoreCall F) × Result ℕ
  upsert_chunks user_id resource_id chunks =
      let stored : List (StoreCall F) × Result ℕ = elim (embed provider embedding (inputs chunks)) [
        | raise e ↦ ([], raise e)
        | ok embeddings ↦ store_records user_id resource_id (records user_id chunks embeddings)
      ] in
      if nonempty chunks then stored else ([], ok 0)

  -- The loop of `index_pdf`
  unfoldable pub page_chunks : Text → ℕ → List Page → Result (List (Chunk (Value F)))
  page_chunks resource_id total_pages [] = ok []
  page_chunks resource_id total_pages (page ∷ pages) =
      let rest = page_chunks resource_id total_pages pages in
      let metadata : Metadata (Value F) =
        (codes "page", int_value page.page_number)
        ∷ (codes "total_pages", int_value total_pages)
        ∷ (codes "source_type", text_value (codes "pdf"))
        ∷ [] in
      if nonempty (strip page.text)
      then (chunk lower chunking est page.text resource_id metadata strategy >>= λ chunks.
          rest >>= λ more. ok (chunks ++ more))
      else rest

  -- `index_pdf`
  unfoldable pub index_pdf : Text → Text → ℕ → List Page → List (StoreCall F) × Result ℕ
  index_pdf user_id resource_id total_pages pages =
      elim (page_chunks resource_id total_pages pages) [
        | raise e ↦ ([], raise e)
        | ok chunks ↦ upsert_chunks user_id resource_id chunks
      ]

  -- `index_asr`
  unfoldable pub index_asr :
      Float F → Text → Text → List (AsrSegment F) → List (StoreCall F) × Result ℕ
  index_asr fl user_id resource_id segments =
      let (full_text, ranges) = build_asr_text_ranges segments in
      let metadata : Metadata (Value F) = (codes "source_type", text_value (codes "audio")) ∷ [] in
      let indexed : List (StoreCall F) × Result ℕ =
        elim (chunk lower chunking est full_text resource_id metadata strategy) [
          | raise e ↦ ([], raise e)
          | ok chunks ↦ upsert_chunks user_id resource_id (apply_time_ranges fl chunks ranges)
        ] in
      if nonempty segments && nonempty (strip full_text) then indexed else ([], ok 0)
