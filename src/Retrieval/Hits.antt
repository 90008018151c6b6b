-- ===== src/Retrieval/Hits.antt =====
-- What the searches of a request return stems from the vector store.
use mkc.Prelude.{
  ℕ, List, [], ◌∷◌, All, All-imp, All-append, All-index, get_elem?, some, ◌++◌, inl, inr, ◌≡◌, refl,
  arith, Bool-cases, if◌then◌else◌,
}
use mkc.Prelude.Text.{Text}
use mkc.Exceptions.{ok, ◌>>=◌, >>=-eq-ok}
use mkc.Models.{VectorSearchResult, Filters, RetrievalRequest}
use mkc.Retrieval.{Backend, several, search_all, search_per_resource, from_keys}

-- The hit is one of those that the store returned for this vector, in a search of the user.
abbrev pub IsHit :
    {F V : Type 0} → Backend F V → RetrievalRequest F → List F → VectorSearchResult F V → Type 0
IsHit {F} {V} backend request vector hit =
    (top_k : ℕ) × (filters : Filters) × (found : List (VectorSearchResult F V)) × (i : ℕ)
    × (filters.user_id ≡ request.user_id)
    × (backend.search vector top_k filters ≡ ok found)
    × (get_elem? found i ≡ some hit)

module _ {F V : Type 0} (backend : Backend F V) (request : RetrievalRequest F)
    (vector : List F) where
  abbrev AllHits : List (VectorSearchResult F V) → Type 0
  AllHits = All (IsHit backend request vector)

  found-IsHit :
      (top_k : ℕ) (resource_ids : List Text) (found : List (VectorSearchResult F V))
      → backend.search vector top_k
          (record { user_id = request.user_id; resource_ids = resource_ids })
        ≡ ok found
      → AllHits found
  found-IsHit top_k resource_ids found h =
      All-imp
        (λ hit (i, at). (
          top_k,
          record { user_id = request.user_id; resource_ids = resource_ids },
          found,
          i,
          refl,
          h,
          at,
        ))
        found (All-index found)

  search_per_resource-IsHit :
      (resource_ids : List Text) (found : List (VectorSearchResult F V))
      → search_per_resource backend vector request.user_id resource_ids ≡ ok found
      → AllHits found
  unfolding search_per_resource
  search_per_resource-IsHit [] found h = let same : [] ≡ found = ground (arith, h) in rw (← same) tt
  search_per_resource-IsHit (r ∷ rs) found h =
      let (first, searched, after) =
        >>=-eq-ok
          (backend.search vector 1 (record { user_id = request.user_id; resource_ids = r ∷ [] }))
          (λ first.
            search_per_resource backend vector request.user_id rs >>= λ rest. ok (first ++ rest))
          {out = found} h in
      let (rest, others, built) =
        >>=-eq-ok (search_per_resource backend vector request.user_id rs)
          (λ rest. ok (first ++ rest)) {out = found} after in
      let same : first ++ rest ≡ found = ground (arith, built) in
      rw (← same) (
        All-append _ first rest (found-IsHit 1 (r ∷ []) first searched)
          (search_per_resource-IsHit rs rest others))

  pub search_all-IsHit :
      (top_k : ℕ) (found : List (VectorSearchResult F V))
      → search_all backend vector top_k request ≡ ok found
      → AllHits found
  unfolding search_all
  search_all-IsHit top_k found h =
      let more =
        search_per_resource backend vector request.user_id (from_keys [] request.resource_ids) in
      let (first, searched, after) =
        >>=-eq-ok
          (backend.search vector top_k
            (record { user_id = request.user_id; resource_ids = request.resource_ids }))
          (λ first.
            if several request.resource_ids
            then (more >>= λ rest. ok (first ++ rest))
            else ok first)
          {out = found} h in
      let whole = found-IsHit top_k request.resource_ids first searched in
      elim (Bool-cases (several request.resource_ids)) [
        | inr one ↦ let same : first ≡ found = ground (arith, after, one) in rw (← same) whole
        | inl many ↦
            let both : (more >>= λ rest. ok (first ++ rest)) ≡ ok found =
              ground (arith, after, many) in
            let (rest, others, built) =
              >>=-eq-ok more (λ rest. ok (first ++ rest)) {out = found} both in
            let same : first ++ rest ≡ found = ground (arith, built) in
            rw (← same) (
              All-append _ first rest whole
                (search_per_resource-IsHit (from_keys [] request.resource_ids) rest others))
      ]
