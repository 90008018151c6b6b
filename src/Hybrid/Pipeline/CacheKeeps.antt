-- ===== src/Hybrid/Pipeline/CacheKeeps.antt =====
-- The cache of BM25 indexes holds no key twice and not too many entries, whatever happens.
use mkc.Prelude.{
  ℕ, suc, ◌+◌, ◌≤◌, false, none, some, List, [], ◌∷◌, ◌++◌, length, length-append, ltb, ◌≡◌, ◌⊎◌,
  refl, ap, arith, Bool-cases, Option-cases, inl, inr,
}
use mkc.Prelude.Text.{Text, text_eqb, text_eqb_iff}
use mkc.Prelude.Dict.{lookup, erase, DistinctKeys, insert-DistinctKeys}
use mkc.Prelude.Order.{Float}
use mkc.Exceptions.{Result-cases}
use mkc.Models.{Filters}
use mkc.Hybrid.{Request, Config, Params, resolve_params}
use mkc.Hybrid.Bm25.{Store}
use mkc.Hybrid.Cache.{move_to_end, evict, remember, remember-length}
use mkc.Hybrid.Pipeline.{
  Services, bm25_cache_key, build_store, get_or_build_bm25, bm25_retrieve, retrieve,
}

module _ {S : Type 0} where
  erase-fresh : (k j : Text) (d : List (Text × S)) → lookup j d ≡ none → lookup j (erase k d) ≡ none
  unfolding lookup erase
  erase-fresh k j [] h = refl
  erase-fresh k j ((i, v) ∷ d) h = ground (arith, h, erase-fresh k j d)

  erase-lookup : (k : Text) (d : List (Text × S)) → DistinctKeys d → lookup k (erase k d) ≡ none
  unfolding lookup erase
  erase-lookup k [] h = refl
  erase-lookup k ((j, v) ∷ d) (fresh, h) = elim (Bool-cases (text_eqb k j)) [
    | inl e ↦ let same : k ≡ j = (text_eqb_iff k j).0 e in rw (e, same) fresh
    | inr e ↦ ground (arith, e, erase-lookup k d h)
  ]

  erase-DistinctKeys : (k : Text) (d : List (Text × S)) → DistinctKeys d → DistinctKeys (erase k d)
  unfolding lookup erase
  erase-DistinctKeys k [] h = tt
  erase-DistinctKeys k ((j, v) ∷ d) (fresh, h) = elim (Bool-cases (text_eqb k j)) [
    | inl e ↦ rw e h
    | inr e ↦ rw e (erase-fresh k j d fresh, erase-DistinctKeys k d h)
  ]

  append-fresh :
      (j k : Text) (v : S) (d : List (Text × S))
      → lookup j d ≡ none
      → text_eqb j k ≡ false
      → lookup j (d ++ ((k, v) ∷ [])) ≡ none
  unfolding lookup
  append-fresh j k v [] h e = rw e
  append-fresh j k v ((i, w) ∷ d) h e = ground (arith, h, e, append-fresh j k v d)

  append-DistinctKeys :
      (k : Text) (v : S) (d : List (Text × S))
      → DistinctKeys d
      → lookup k d ≡ none
      → DistinctKeys (d ++ ((k, v) ∷ []))
  unfolding lookup
  append-DistinctKeys k v [] h fresh = (refl, tt)
  append-DistinctKeys k v ((j, w) ∷ d) (new, h) fresh = (
    append-fresh j k v d new (ground (arith, fresh, text_eqb_iff j k, text_eqb_iff k j)),
    append-DistinctKeys k v d h (ground (arith, fresh)),
  )

  move_to_end-eq :
      (k : Text) (d : List (Text × S))
      → (move_to_end k d ≡ d)
        ⊎ ((v : S) × (lookup k d ≡ some v) × (move_to_end k d ≡ erase k d ++ ((k, v) ∷ [])))
  unfolding move_to_end
  move_to_end-eq k d = elim (Option-cases (lookup k d)) [
    | inl q ↦ inl (ground (arith, q))
    | inr (v, q) ↦ inr (v, q, ground (arith, q))
  ]

  move_to_end-DistinctKeys :
      (k : Text) (d : List (Text × S)) → DistinctKeys d → DistinctKeys (move_to_end k d)
  move_to_end-DistinctKeys k d h = elim (move_to_end-eq k d) [
    | inl e ↦ rw e h
    | inr (v, q, e) ↦
        rw e (append-DistinctKeys k v (erase k d) (erase-DistinctKeys k d h) (erase-lookup k d h))
  ]

  evict-DistinctKeys : (n : ℕ) (d : List (Text × S)) → DistinctKeys d → DistinctKeys (evict n d)
  unfolding evict
  evict-DistinctKeys n [] h = tt
  evict-DistinctKeys n (item ∷ d) h = elim (Bool-cases (ltb n (suc (length d)))) [
    | inl e ↦ rw e (evict-DistinctKeys n d h.1)
    | inr e ↦ rw e h
  ]

  erase-length :
      (k : Text) (v : S) (d : List (Text × S))
      → lookup k d ≡ some v
      → length (erase k d) + 1 ≡ length d
  unfolding lookup erase
  erase-length k v [] h = cc
  erase-length k v ((j, w) ∷ d) h = ground (arith, h, erase-length k v d)

  move_to_end-length : (k : Text) (d : List (Text × S)) → length (move_to_end k d) ≡ length d
  move_to_end-length k d = elim (move_to_end-eq k d) [
    | inl e ↦ ap length e
    | inr (v, q, e) ↦
        let last : List (Text × S) = (k, v) ∷ [] in
        rw e (omega (arith, length-append (erase k d) last, erase-length k v d q))
  ]

  -- What the cache promises.
  abbrev pub IsCache : ℕ → List (Text × S) → Type 0
  IsCache n cache = DistinctKeys cache × (length cache ≤ n)

  move_to_end-IsCache :
      (n : ℕ) (k : Text) (cache : List (Text × S))
      → IsCache n cache
      → IsCache n (move_to_end k cache)
  move_to_end-IsCache n k cache (d, few) =
      (move_to_end-DistinctKeys k cache d, omega (arith, move_to_end-length k cache))

  remember-IsCache :
      (n : ℕ) (k : Text) (v : S) (cache : List (Text × S))
      → IsCache n cache
      → IsCache n (remember k v n cache)
  unfolding remember
  remember-IsCache n k v cache (d, few) = (
    evict-DistinctKeys n _ (move_to_end-DistinctKeys k _ (insert-DistinctKeys k v cache d)),
    remember-length k v n cache,
  )

module _ {F V I : Type 0} (fl : Float F) (services : Services F V I) (cfg : Config F) where
  get_or_build_bm25-cache :
      (filters : Filters) (params : Params F) (cache : List (Text × Store F V I))
      → let key = bm25_cache_key filters in
        let left = (get_or_build_bm25 fl services cfg filters params cache).1 in
        (left ≡ cache)
        ⊎ ((left ≡ move_to_end key cache)
            ⊎ ((store : Store F V I) × (left
                  ≡ remember key store params.bm25_cache_max_entries cache)))
  unfolding get_or_build_bm25
  get_or_build_bm25-cache filters params cache =
      let key = bm25_cache_key filters in
      elim (Bool-cases cfg.bm25_cache_index) [
        | inl on ↦ elim (Option-cases (lookup key cache)) [
          | inl q ↦ elim (Result-cases (build_store fl services filters params.bm25_max_docs)) [
            | inl (e, b) ↦ inl (ground (arith, on, q, b))
            | inr (store, b) ↦ inr (inr (store, ground (arith, on, q, b)))
          ]
          | inr (store, q) ↦ inr (inl (ground (arith, on, q)))
        ]
        | inr off ↦ elim (Result-cases (build_store fl services filters params.bm25_max_docs)) [
          | inl (e, b) ↦ inl (ground (arith, off, b))
          | inr (store, b) ↦ inl (ground (arith, off, b))
        ]
      ]

  get_or_build_bm25-IsCache :
      (filters : Filters) (params : Params F) (cache : List (Text × Store F V I))
      → IsCache params.bm25_cache_max_entries cache
      → IsCache params.bm25_cache_max_entries
          (get_or_build_bm25 fl services cfg filters params cache).1
  get_or_build_bm25-IsCache filters params cache h =
      let n = params.bm25_cache_max_entries in
      let key = bm25_cache_key filters in
      elim (get_or_build_bm25-cache filters params cache) [
        | inl e ↦ rw e h
        | inr (inl e) ↦ rw e (move_to_end-IsCache n key cache h)
        | inr (inr (store, e)) ↦ rw e (remember-IsCache n key store cache h)
      ]

  -- A cache within its limit, and with no key twice, is still so after a retrieval, whether this
  -- returned or raised.
  pub retrieve-IsCache :
      (request : Request F) (middle last : ℕ) (cache : List (Text × Store F V I))
      → IsCache cfg.bm25_cache_max_entries cache
      → IsCache cfg.bm25_cache_max_entries (retrieve fl services cfg request middle last cache).1
  unfolding retrieve bm25_retrieve resolve_params
  retrieve-IsCache request middle last cache h =
      get_or_build_bm25-IsCache _ (resolve_params cfg request) cache h
