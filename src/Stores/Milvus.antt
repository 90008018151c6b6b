-- ===== src/Stores/Milvus.antt =====
-- ai-service/app/vector_store/milvus_store.py. The client of Milvus is the record `Client`, whose calls
-- take the number of the attempt.
pub mod Literals
pub mod Reads
pub mod Calls
use mkc.Prelude.{
  ℕ, zero, suc, min, Bool, true, false, ◌&&◌, Option, none, some, List, [], ◌∷◌, ◌++◌, map, length,
  take, nat_eqb, if◌then◌else◌, ◌≡◌,
}
use mkc.Prelude.Text.{Text, codes, text_eqb, nonempty, join}
use mkc.Exceptions.{Exception, Result, ok, raise, ◌>>=◌}
use mkc.Chunking.{Metadata}
use mkc.Models.{VectorRecord, VectorSearchResult}
use mkc.Retrieval.{get_or}
use mkc.Stores.{
  Scope, one, many, StoreFilters, scope_of, StoreConfig, top_k_limit, Arith, at_least_nought,
  unavailable, config_error, is_config_error,
}

abbrev pub quote : ℕ
quote = 39

-- `value.replace("'", "''")`
unfoldable pub escape_expr : Text → Text
escape_expr [] = []
escape_expr (c ∷ s) =
    let rest = escape_expr s in if nat_eqb c quote then quote ∷ quote ∷ rest else c ∷ rest

unfoldable pub quoted : Text → Text
quoted value = quote ∷ (escape_expr value ++ (quote ∷ []))

-- `_resource_id_filter`
unfoldable pub resource_id_filter : Option Scope → Text
resource_id_filter none = []
resource_id_filter (some (one r)) = codes "resource_id == " ++ quoted r
resource_id_filter (some (many [])) = codes "resource_id == ''"
resource_id_filter (some (many (r ∷ []))) = codes "resource_id == " ++ quoted r
resource_id_filter (some (many (r ∷ s ∷ ids))) =
    codes "resource_id in [" ++ (join (codes ", ") (map quoted (r ∷ s ∷ ids)) ++ codes "]")

unfoldable pub user_clause : Option Text → List Text
user_clause none = []
user_clause (some user_id) = (codes "user_id == " ++ quoted user_id) ∷ []

-- `_search_filter`
unfoldable pub search_filter : StoreFilters → Text
search_filter filters =
    let resource_filter = resource_id_filter (scope_of filters) in
    let clauses : List Text = if nonempty resource_filter then resource_filter ∷ [] else [] in
    join (codes " && ") (clauses ++ user_clause filters.user_id)

-- `_resource_filter`
unfoldable pub resource_filter : Text → Option Text → Text
resource_filter resource_id none = codes "resource_id == " ++ quoted resource_id
resource_filter resource_id (some user_id) =
    if nonempty user_id
    then (codes "resource_id == " ++ quoted resource_id)
      ++ (codes " && " ++ (codes "user_id == " ++ quoted user_id))
    else codes "resource_id == " ++ quoted resource_id

-- A row that is written
pub record MilvusRow (F V : Type 0) : Type 0 where
  pub id : Text
  pub vector : List F
  pub resource_id : Text
  pub user_id : Text
  pub text : Text
  pub metadata : Metadata V
  pub created_at : ℕ

-- The fields of a row that is returned, where they are there
pub record Entity (V : Type 0) : Type 0 where
  pub resource_id : Option Text
  pub user_id : Option Text
  pub text : Option Text
  pub metadata : Option (Metadata V)
  pub created_at : Option ℕ

-- A hit of a search, and a row of a query with its identifier, if there is one
pub record Hit (F V : Type 0) : Type 0 where
  pub id : Text
  pub distance : F
  pub entity : Option (Entity V)

pub record Row (V : Type 0) : Type 0 where
  pub id : Option Text
  pub entity : Entity V

-- What `delete` returns: a list of so many, or a dictionary with a count, if it is there
pub data Deleted : Type 0 where
  listed : ℕ → Deleted
  counted : Option ℕ → Deleted

-- The calls of the client, at an attempt; `upsert` returns its count, if there is one.
pub record Client (F V : Type 0) : Type 0 where
  pub upsert : List (MilvusRow F V) → ℕ → Result (Option ℕ)
  pub delete : Text → ℕ → Result Deleted
  pub search : List F → ℕ → Option Text → ℕ → Result (List (List (Hit F V)))
  pub query : Option Text → ℕ → ℕ → Result (List (Row V))

-- The attempts, of which `left` are left behind this one
unfoldable pub retrying : {A : Type 0} → (ℕ → Result A) → ℕ → ℕ → Result A
retrying call zero attempt = call attempt
retrying call (suc left) attempt = elim (call attempt) [
  | ok value ↦ ok value
  | raise e ↦ retrying call left (suc attempt)
]

-- The `except` clauses of `_with_retry`
unfoldable pub as_store_error : {A : Type 0} → Result A → Result A
as_store_error (ok value) = ok value
as_store_error (raise e) = if is_config_error e then raise e else raise unavailable

-- `_with_retry`; a first attempt is made in any case.
unfoldable pub with_retry : {A : Type 0} → ℕ → (ℕ → Result A) → Result A
with_retry zero call = as_store_error (retrying call zero 0)
with_retry (suc retries) call = as_store_error (retrying call retries 0)

-- `_record_to_milvus`
unfoldable pub record_to_milvus : {F V : Type 0} → ℕ → VectorRecord F V → MilvusRow F V
record_to_milvus created_at r = record {
  id = r.id;
  vector = r.vector;
  resource_id = r.resource_id;
  user_id = r.user_id;
  text = take 4096 r.text;
  metadata = r.metadata;
  created_at = created_at;
}

-- `expr or None`
unfoldable pub expr_or_none : Text → Option Text
expr_or_none expr = if nonempty expr then some expr else none

-- `_distance_to_score`, for a metric that is written in capitals
unfoldable pub distance_to_score : {F : Type 0} → Arith F → F → Text → F
distance_to_score fl distance metric =
    if text_eqb metric (codes "L2")
    then fl.over fl.one (fl.plus fl.one distance)
    else if text_eqb metric (codes "IP")
    then at_least_nought fl (fl.minus fl.nought distance)
    else fl.minus fl.one distance

unfoldable pub entity_to_result : {F V : Type 0} → Text → F → Entity V → VectorSearchResult F V
entity_to_result id score entity = record {
  id = id;
  resource_id = get_or entity.resource_id [];
  user_id = get_or entity.user_id [];
  text = get_or entity.text [];
  metadata = get_or entity.metadata [];
  score = score;
  created_at = get_or entity.created_at 0;
}

-- `hit.get("entity", {})`
unfoldable pub entity_of : {F V : Type 0} → Hit F V → Entity V
entity_of hit =
    get_or hit.entity (record {
      resource_id = none;
      user_id = none;
      text = none;
      metadata = none;
      created_at = none;
    })

module _ {F V : Type 0} (fl : Arith F) (upper : Text → Text) (cfg : StoreConfig)
    (client : Client F V) where
  -- `_hit_to_result`
  unfoldable pub hit_to_result : Hit F V → VectorSearchResult F V
  hit_to_result hit =
      entity_to_result hit.id (distance_to_score fl hit.distance (upper cfg.metric_type))
        (entity_of hit)

  -- `_query_row_to_result`
  unfoldable pub query_row_to_result : Row V → VectorSearchResult F V
  query_row_to_result row = entity_to_result (get_or row.id []) fl.nought row.entity

  -- `upsert`, of records with the time of their creation
  unfoldable pub upsert : List (ℕ × VectorRecord F V) → Result ℕ
  upsert [] = ok 0
  upsert (first ∷ others) =
      let rows = map (λ r. record_to_milvus r.0 r.1) (first ∷ others) in
      with_retry cfg.max_retries (client.upsert rows) >>= λ upsert_count.
      ok (get_or upsert_count (length rows))

  unfoldable pub count_of : Deleted → ℕ
  count_of (listed n) = n
  count_of (counted n) = get_or n 0

  -- `delete_by_resource`
  unfoldable pub delete_by_resource : Text → Option Text → Result ℕ
  delete_by_resource resource_id user_id =
      with_retry cfg.max_retries (client.delete (resource_filter resource_id user_id))
      >>= λ deleted. ok (count_of deleted)

  unfoldable pub hits_of : List (List (Hit F V)) → List (VectorSearchResult F V)
  hits_of [] = []
  hits_of (hits ∷ _) = map hit_to_result hits

  -- `search`
  unfoldable pub search : List F → ℕ → StoreFilters → Result (List (VectorSearchResult F V))
  search vector top_k filters =
      with_retry cfg.max_retries
        (client.search vector (min top_k top_k_limit) (expr_or_none (search_filter filters)))
      >>= λ found. ok (hits_of found)

  -- `query`
  unfoldable pub query : StoreFilters → ℕ → Result (List (VectorSearchResult F V))
  query filters limit =
      with_retry cfg.max_retries
        (client.query (expr_or_none (search_filter filters)) (min limit top_k_limit))
      >>= λ rows. ok (map query_row_to_result rows)

-- `_validate_collection_dimension`, with the fields of the collection by name and dimension
unfoldable pub validate_dimension : ℕ → List (Text × Option ℕ) → Result (Unit {0})
validate_dimension dimensions [] = raise config_error
validate_dimension dimensions ((name, dim) ∷ fields) =
    let rest = validate_dimension dimensions fields in
    let here : Result (Unit {0}) = elim dim [
      | none ↦ raise config_error
      | some d ↦ if nat_eqb d dimensions then ok tt else raise config_error
    ] in
    if text_eqb name (codes "vector") then here else rest

-- `_ensure_collection`: `fields` are those of the collection, if there is one; `unsupported` says whether
-- an exception is one of Milvus about a local collection.
unfoldable pub ensure_collection :
    ℕ
    → Text
    → (Exception → Bool)
    → (Text → Result (Unit {0}))
    → Option (List (Text × Option ℕ))
    → Result (Unit {0})
ensure_collection dimensions index_type unsupported create (some fields) =
    validate_dimension dimensions fields
ensure_collection dimensions index_type unsupported create none = elim (create index_type) [
  | ok done ↦ ok done
  | raise e ↦ if unsupported e then create (codes "AUTOINDEX") else raise e
]
