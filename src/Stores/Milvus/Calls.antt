-- ===== src/Stores/Milvus/Calls.antt =====
-- The attempts that the operations of the Milvus store make, and what they return or raise after them.
use mkc.Prelude.{
  ℕ, zero, suc, ◌+◌, ◌-◌, ◌≤◌, min, Option, List, [], ◌∷◌, map, ◌≡◌, ◌⊎◌, refl, ap, ◌∙◌, inl, inr,
  arith, if◌then◌else◌,
}
use mkc.Prelude.Text.{Text}
use mkc.Exceptions.{Exception, Result, ok, raise, ◌>>=◌, Result-cases}
use mkc.Models.{VectorSearchResult}
use mkc.Retrieval.{get_or}
use mkc.Stores.{StoreFilters, StoreConfig, Arith, unavailable, is_config_error}
use mkc.Stores.Milvus.{
  Hit, Row, Client, retrying, as_store_error, with_retry, expr_or_none, entity_to_result, entity_of,
  distance_to_score, hit_to_result, query_row_to_result, hits_of, search, query, search_filter,
  resource_filter, count_of, delete_by_resource,
}

-- The attempts from `i` on, `n` of them, raise.
abbrev pub Raised : {A : Type 0} → (ℕ → Result A) → ℕ → ℕ → Type 0
Raised call i zero = Unit
Raised call i (suc n) = ((e : Exception) × (call i ≡ raise e)) × Raised call (suc i) n

-- The first attempt that returns decides, if one up to `last` does; else the exception of the last one.
abbrev pub IsRetried : {A B : Type 0} → (ℕ → Result A) → ℕ → (A → B) → Result B → Type 0
IsRetried {A} call last shown result =
    ((n : ℕ) × (value : A) × (n ≤ last)
      × Raised call 0 n
      × (call n ≡ ok value)
      × (result ≡ ok (shown value)))
    ⊎ ((e : Exception) × Raised call 0 last
        × (call last ≡ raise e)
        × (result ≡ raise (if is_config_error e then e else unavailable)))

module _ {A : Type 0} (call : ℕ → Result A) where
  abbrev Ends : ℕ → ℕ → Result A → Type 0
  Ends left i result =
      ((n : ℕ) × (value : A) × (n ≤ left)
        × Raised call i n
        × (call (i + n) ≡ ok value)
        × (result ≡ ok value))
      ⊎ ((e : Exception) × Raised call i left × (call (i + left) ≡ raise e) × (result ≡ raise e))

  plus_zero : (i : ℕ) → i + 0 ≡ i
  plus_zero i = omega arith

  plus_suc : (i n : ℕ) → i + suc n ≡ suc i + n
  plus_suc i n = omega arith

  retrying-next :
      (left i : ℕ) (e : Exception)
      → call i ≡ raise e
      → retrying call (suc left) i ≡ retrying call left (suc i)
  unfolding retrying
  retrying-next left i e q = rw (retrying, q) refl

  retrying-Ends : (left i : ℕ) → Ends left i (retrying call left i)
  unfolding retrying
  retrying-Ends zero i = elim (Result-cases (call i)) [
    | inl (e, q) ↦ inr (e, tt, ap call (plus_zero i) ∙ q, q)
    | inr (a, q) ↦ inl (0, a, omega arith, tt, ap call (plus_zero i) ∙ q, q)
  ]
  retrying-Ends (suc left) i = elim (Result-cases (call i)) [
    | inr (a, q) ↦ inl (0, a, omega arith, tt, ap call (plus_zero i) ∙ q, rw (retrying, q) refl)
    | inl (d, q) ↦ elim (retrying-Ends left (suc i)) [
      | inl (n, a, few, raised, returned, same) ↦ inl (
        suc n,
        a,
        omega (arith, few),
        ((d, q), raised),
        ap call (plus_suc i n) ∙ returned,
        retrying-next left i d q ∙ same,
      )
      | inr (e, raised, last, same) ↦
          inr
            (e, ((d, q), raised), ap call (plus_suc i left) ∙ last, retrying-next left i d q ∙ same)
    ]
  ]

  as_store_error-raise :
      (e : Exception)
      → as_store_error {A = A} (raise e) ≡ raise (if is_config_error e then e else unavailable)
  unfolding as_store_error
  as_store_error-raise e = ground arith

  retried : (last : ℕ) → IsRetried call last (λ a. a) (as_store_error (retrying call last 0))
  unfolding as_store_error
  retried last = elim (retrying-Ends last 0) [
    | inl (n, a, few, raised, returned, same) ↦
        inl (n, a, few, raised, ap call (omega arith) ∙ returned, rw same refl)
    | inr (e, raised, failed, same) ↦
        inr (e, raised, ap call (omega arith) ∙ failed, rw same (as_store_error-raise e))
  ]

  with_retry-IsRetried : (n : ℕ) → IsRetried call (n - 1) (λ a. a) (with_retry n call)
  unfolding with_retry
  with_retry-IsRetried zero = retried 0
  with_retry-IsRetried (suc n) = let same : suc n - 1 ≡ n = omega arith in rw same (retried n)

  then-IsRetried :
      {B : Type 0} (n : ℕ) (shown : A → B)
      → IsRetried call (n - 1) shown (with_retry n call >>= λ a. ok (shown a))
  then-IsRetried n shown = elim (with_retry-IsRetried n) [
    | inl (k, a, few, raised, returned, same) ↦ inl (k, a, few, raised, returned, rw same refl)
    | inr (e, raised, failed, same) ↦ inr (e, raised, failed, rw same refl)
  ]

module _ {F V : Type 0} (fl : Arith F) (upper : Text → Text) (cfg : StoreConfig)
    (client : Client F V) where
  -- The results of a search: those of the first list of hits, with the score of the distance
  abbrev pub results_of : List (List (Hit F V)) → List (VectorSearchResult F V)
  results_of [] = []
  results_of (hits ∷ _) =
      map
        (λ (hit : Hit F V). record {
          id = hit.id;
          resource_id = get_or (entity_of hit).resource_id [];
          user_id = get_or (entity_of hit).user_id [];
          text = get_or (entity_of hit).text [];
          metadata = get_or (entity_of hit).metadata [];
          score = distance_to_score fl hit.distance (upper cfg.metric_type);
          created_at = get_or (entity_of hit).created_at 0;
        })
        hits

  -- The results of a query, with no score
  abbrev pub rows_of : List (Row V) → List (VectorSearchResult F V)
  rows_of = map (λ (row : Row V). record {
    id = get_or row.id [];
    resource_id = get_or row.entity.resource_id [];
    user_id = get_or row.entity.user_id [];
    text = get_or row.entity.text [];
    metadata = get_or row.entity.metadata [];
    score = fl.nought;
    created_at = get_or row.entity.created_at 0;
  })

  hits_of_lem :
      (found : List (List (Hit F V))) → hits_of fl upper cfg client found ≡ results_of found
  unfolding hits_of hit_to_result entity_to_result
  hits_of_lem [] = refl
  hits_of_lem (hits ∷ others) = refl

  search-IsRetried :
      (vector : List F) (top_k : ℕ) (filters : StoreFilters)
      → IsRetried
          (client.search vector (min top_k 100) (expr_or_none (search_filter filters)))
          (cfg.max_retries - 1)
          results_of
          (search fl upper cfg client vector top_k filters)
  unfolding search
  search-IsRetried vector top_k filters =
      let call = client.search vector (min top_k 100) (expr_or_none (search_filter filters)) in
      elim (then-IsRetried call cfg.max_retries (hits_of fl upper cfg client)) [
        | inl (n, a, few, raised, returned, same) ↦
            inl (n, a, few, raised, returned, same ∙ ap ok (hits_of_lem a))
        | inr failed ↦ inr failed
      ]

  query-IsRetried :
      (filters : StoreFilters) (limit : ℕ)
      → IsRetried
          (client.query (expr_or_none (search_filter filters)) (min limit 100))
          (cfg.max_retries - 1)
          rows_of
          (query fl upper cfg client filters limit)
  unfolding query query_row_to_result entity_to_result
  query-IsRetried filters limit =
      then-IsRetried (client.query (expr_or_none (search_filter filters)) (min limit 100))
        cfg.max_retries rows_of

  delete-IsRetried :
      (resource_id : Text) (user_id : Option Text)
      → IsRetried
          (client.delete (resource_filter resource_id user_id))
          (cfg.max_retries - 1)
          (count_of fl upper cfg client)
          (delete_by_resource fl upper cfg client resource_id user_id)
  unfolding delete_by_resource
  delete-IsRetried resource_id user_id =
      then-IsRetried (client.delete (resource_filter resource_id user_id)) cfg.max_retries
        (count_of fl upper cfg client)

-- A search, a query and a deletion call the client at most `max_retries` times, but once at least, and
-- the first two for at most 100 rows. What the first call that does not raise returns is their result:
-- all hits of the first list, or all rows, in order and with their fields, or the number deleted. Where
-- all calls raise, they raise: the last exception if it is a `VectorStoreConfigError`, and
-- `VectorStoreUnavailableError` if not.
pub operations-IsRetried :
    {F V : Type 0} (fl : Arith F) (upper : Text → Text) (cfg : StoreConfig) (client : Client F V)
    (vector : List F) (limit : ℕ) (filters : StoreFilters) (resource_id : Text)
    (user_id : Option Text)
    → let last = cfg.max_retries - 1 in
      let expr = expr_or_none (search_filter filters) in
      IsRetried
        (client.search vector (min limit 100) expr)
        last
        (results_of fl upper cfg client)
        (search fl upper cfg client vector limit filters)
      × IsRetried
          (client.query expr (min limit 100))
          last
          (rows_of fl upper cfg client)
          (query fl upper cfg client filters limit)
      × IsRetried
          (client.delete (resource_filter resource_id user_id))
          last
          (count_of fl upper cfg client)
          (delete_by_resource fl upper cfg client resource_id user_id)
operations-IsRetried fl upper cfg client vector limit filters resource_id user_id = (
  search-IsRetried fl upper cfg client vector limit filters,
  query-IsRetried fl upper cfg client filters limit,
  delete-IsRetried fl upper cfg client resource_id user_id,
)
