-- ===== src/Stores/Chroma.antt =====
-- ai-service/app/vector_store/chroma_store.py. The collection of Chroma is the record `Collection` over its
-- states; lists that the code zips are one list here.
pub mod Plain
pub mod Holding
pub mod Refines
use mkc.Prelude.{
  ℕ, ◌-◌, min, Bool, true, false, ◌&&◌, not, Option, none, some, List, [], ◌∷◌, ◌++◌, map, length,
  keep_if, if◌then◌else◌, ◌≡◌,
}
use mkc.Prelude.Text.{Text, codes, text_eqb, text_in}
use mkc.Prelude.Dict.{lookup, insert}
use mkc.Exceptions.{Exception, Result, ok, raise, ◌>>=◌}
use mkc.Models.{VectorRecord, VectorSearchResult}
use mkc.Retrieval.{get_or}
use mkc.Indexing.{Value, int_value, text_value}
use mkc.Stores.{
  Scope, one, many, StoreFilters, scope_of, top_k_limit, Arith, at_least_nought, unavailable,
}

-- A `where` of one field, or `$or` over values of one field; and `$and`
pub data Clause : Type 0 where
  equals : Text → Text → Clause
  any_of : Text → List Text → Clause

pub data Where : Type 0 where
  only : Clause → Where
  all_of : List Clause → Where

-- `_resource_id_filter`
unfoldable pub resource_id_filter : Option Scope → Option Clause
resource_id_filter none = none
resource_id_filter (some (one r)) = some (equals (codes "resource_id") r)
resource_id_filter (some (many [])) = some (equals (codes "resource_id") [])
resource_id_filter (some (many (r ∷ []))) = some (equals (codes "resource_id") r)
resource_id_filter (some (many (r ∷ s ∷ ids))) = some (any_of (codes "resource_id") (r ∷ s ∷ ids))

unfoldable pub user_clause : Option Text → Option Clause
user_clause none = none
user_clause (some user_id) = some (equals (codes "user_id") user_id)

-- The end of `_search_filter`
unfoldable pub both_clauses : Option Clause → Option Clause → Option Where
both_clauses none none = none
both_clauses none (some c) = some (only c)
both_clauses (some c) none = some (only c)
both_clauses (some c) (some d) = some (all_of (c ∷ d ∷ []))

-- `_search_filter`
unfoldable pub search_filter : StoreFilters → Option Where
search_filter filters =
    both_clauses (resource_id_filter (scope_of filters)) (user_clause filters.user_id)

-- `_resource_filter`
unfoldable pub resource_filter : Text → Option Text → Where
resource_filter resource_id none = only (equals (codes "resource_id") resource_id)
resource_filter resource_id (some user_id) =
    all_of (equals (codes "resource_id") resource_id ∷ equals (codes "user_id") user_id ∷ [])

-- A row of the collection
pub record ChromaRow (F : Type 0) : Type 0 where
  pub id : Text
  pub embedding : List F
  pub metadata : List (Text × Value F)
  pub document : Text

-- What is returned of a row, with a distance if it is a hit
pub record Shown (F : Type 0) : Type 0 where
  pub id : Text
  pub metadata : Option (List (Text × Value F))
  pub document : Option Text
  pub distance : Option F

-- The calls of the collection, in a state
pub record Collection (S F : Type 0) : Type 0 where
  pub upsert : List (ChromaRow F) → S → Result S
  pub delete : Where → S → Result S
  pub count : S → ℕ
  pub query : List F → ℕ → Option Where → S → Result (List (Shown F))
  pub get : Option Where → ℕ → S → Result (List (Shown F))

-- Python's `str` and `int` of a value
pub record Casts (F : Type 0) : Type 0 where
  pub to_text : Value F → Text
  pub to_int : Value F → Result ℕ

-- `{**d, **m}`
unfoldable pub merge : {V : Type 0} → List (Text × V) → List (Text × V) → List (Text × V)
merge d [] = d
merge d ((k, v) ∷ m) = merge (insert k v d) m

-- The entries that the store adds
abbrev pub base : {F : Type 0} → ℕ → VectorRecord F (Value F) → List (Text × Value F)
base created_at r =
    (codes "resource_id", text_value r.resource_id)
    ∷ (codes "user_id", text_value r.user_id)
    ∷ (codes "created_at", int_value created_at)
    ∷ []

-- `_record_to_chroma_metadata`
unfoldable pub record_to_chroma_metadata :
    {F : Type 0} → ℕ → VectorRecord F (Value F) → List (Text × Value F)
record_to_chroma_metadata created_at r = merge (base created_at r) r.metadata

unfoldable pub to_row : {F : Type 0} → ℕ × VectorRecord F (Value F) → ChromaRow F
to_row (created_at, r) = record {
  id = r.id;
  embedding = r.vector;
  metadata = record_to_chroma_metadata created_at r;
  document = r.text;
}

-- `_RESERVED_KEYS`
unfoldable pub is_reserved : Text → Bool
is_reserved k = text_in k (codes "resource_id" ∷ codes "user_id" ∷ codes "created_at" ∷ [])

-- The `except` clauses around a call
unfoldable pub guarded : {A : Type 0} → Result A → Result A
guarded (ok a) = ok a
guarded (raise e) = raise unavailable

-- `_distance_to_score`
unfoldable pub distance_to_score : {F : Type 0} → Arith F → Option F → F
distance_to_score fl none = fl.nought
distance_to_score fl (some distance) = at_least_nought fl (fl.minus fl.one distance)

module _ {F : Type 0} (casts : Casts F) where
  -- `str(metadata.get(key, ""))`
  unfoldable pub text_at : Text → List (Text × Value F) → Text
  text_at key metadata = elim (lookup key metadata) [ none ↦ [] | some value ↦ casts.to_text value ]

  -- `int(metadata.get("created_at", 0))`
  unfoldable pub created_at_of : List (Text × Value F) → Result ℕ
  created_at_of metadata = elim (lookup (codes "created_at") metadata) [
    | none ↦ ok 0
    | some value ↦ casts.to_int value
  ]

  -- The result that is made of a row with metadata
  unfoldable pub to_result :
      F → Shown F → List (Text × Value F) → Result (VectorSearchResult F (Value F))
  to_result score shown metadata = created_at_of metadata >>= λ created_at. ok (record {
    id = shown.id;
    resource_id = text_at (codes "resource_id") metadata;
    user_id = text_at (codes "user_id") metadata;
    text = get_or shown.document [];
    metadata = keep_if (λ entry. not (is_reserved entry.0)) metadata;
    score = score;
    created_at = created_at;
  })

  -- The loops over what is returned; a row without metadata is left out.
  unfoldable pub to_results :
      (Shown F → F) → List (Shown F) → Result (List (VectorSearchResult F (Value F)))
  to_results score [] = ok []
  to_results score (shown ∷ found) =
      let rest = to_results score found in
      elim shown.metadata [
        | none ↦ rest
        | some metadata ↦ (do
          result ← to_result (score shown) shown metadata
          results ← rest
          ok (result ∷ results))
      ]

module _ {S F : Type 0} (fl : Arith F) (casts : Casts F) (collection : Collection S F) where
  -- `upsert`, of records with the time of their creation
  unfoldable pub upsert : List (ℕ × VectorRecord F (Value F)) → S → Result (ℕ × S)
  upsert [] s = ok (0, s)
  upsert (first ∷ others) s =
      guarded (collection.upsert (map to_row (first ∷ others)) s) >>= λ after.
      ok (length (first ∷ others), after)

  -- `delete_by_resource`
  unfoldable pub delete_by_resource : Text → Option Text → S → Result (ℕ × S)
  delete_by_resource resource_id user_id s =
      guarded (collection.delete (resource_filter resource_id user_id) s) >>= λ after.
      ok (collection.count s - collection.count after, after)

  -- `search`
  unfoldable pub search :
      List F → ℕ → StoreFilters → S → Result (List (VectorSearchResult F (Value F)))
  search vector top_k filters s =
      guarded (collection.query vector (min top_k top_k_limit) (search_filter filters) s)
      >>= to_results casts (λ shown. distance_to_score fl shown.distance)

  -- `query`
  unfoldable pub query : StoreFilters → ℕ → S → Result (List (VectorSearchResult F (Value F)))
  query filters limit s =
      guarded (collection.get (search_filter filters) (min limit top_k_limit) s)
      >>= to_results casts (λ shown. fl.nought)
