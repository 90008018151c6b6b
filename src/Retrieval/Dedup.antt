-- ===== src/Retrieval/Dedup.antt =====
-- What `_deduplicate_similar_chunks` keeps.
use mkc.Prelude.{true, List, [], ◌∷◌, All, ◌≢◌, ◌⊎◌, inl, inr, ◌≡◌, refl, sym, arith, Bool-cases}
use mkc.Prelude.Text.{Text, text_eqb, text_eqb_iff, text_eqb_refl, text_in}
use mkc.Models.{VectorSearchResult}
use mkc.Retrieval.{Backend, dedup_key, deduplicate}

module _ {F V : Type 0} (backend : Backend F V) where
  abbrev pub key : VectorSearchResult F V → Text
  key = dedup_key backend

  -- No two chunks of the list have the same key.
  abbrev pub DistinctKeys : List (VectorSearchResult F V) → Type 0
  DistinctKeys [] = Unit
  DistinctKeys (c ∷ cs) = All (λ d. key c ≢ key d) cs × DistinctKeys cs

  deduplicate-fresh :
      (seen : List Text) (k : Text) (chunks : List (VectorSearchResult F V))
      → text_in k seen ≡ true
      → All (λ d. k ≢ key d) (deduplicate backend seen chunks)
  unfolding deduplicate text_in
  deduplicate-fresh seen k [] h = tt
  deduplicate-fresh seen k (c ∷ cs) h = elim (Bool-cases (text_in (key c) seen)) [
    | inl old ↦ rw old (deduplicate-fresh seen k cs h)
    | inr new ↦ rw new (λ same. cc, deduplicate-fresh (key c ∷ seen) k cs (ground arith))
  ]

  deduplicate-DistinctKeys_from :
      (seen : List Text) (chunks : List (VectorSearchResult F V))
      → DistinctKeys (deduplicate backend seen chunks)
  unfolding deduplicate text_in
  deduplicate-DistinctKeys_from seen [] = tt
  deduplicate-DistinctKeys_from seen (c ∷ cs) = elim (Bool-cases (text_in (key c) seen)) [
    | inl old ↦ rw old (deduplicate-DistinctKeys_from seen cs)
    | inr new ↦ rw new (
      deduplicate-fresh (key c ∷ seen) (key c) cs (rw (text_eqb_refl (key c))),
      deduplicate-DistinctKeys_from (key c ∷ seen) cs,
    )
  ]

  -- a chunk with the key is in the list
  abbrev pub HasKey : Text → List (VectorSearchResult F V) → Type 0
  HasKey k [] = ⊥
  HasKey k (c ∷ cs) = (key c ≡ k) ⊎ HasKey k cs

  pub All-deduplicate :
      (P : VectorSearchResult F V → Type 0) (seen : List Text)
      (chunks : List (VectorSearchResult F V))
      → All P chunks
      → All P (deduplicate backend seen chunks)
  unfolding deduplicate
  All-deduplicate P seen [] h = tt
  All-deduplicate P seen (c ∷ cs) h = elim (Bool-cases (text_in (key c) seen)) [
    | inl old ↦ rw old (All-deduplicate P seen cs h.1)
    | inr new ↦ rw new (h.0, All-deduplicate P (key c ∷ seen) cs h.1)
  ]

  -- each key of the input is in `seen` or in the output
  deduplicate_complete_from :
      (seen : List Text) (k : Text) (chunks : List (VectorSearchResult F V))
      → HasKey k chunks
      → (text_in k seen ≡ true) ⊎ HasKey k (deduplicate backend seen chunks)
  unfolding deduplicate text_in
  deduplicate_complete_from seen k [] h = elim h [ ]
  deduplicate_complete_from seen k (c ∷ cs) h = elim (Bool-cases (text_in (key c) seen)) [
    | inl old ↦ elim h [
      | inl e ↦ inl (rw (← e) old)
      | inr later ↦ rw old (deduplicate_complete_from seen k cs later)
    ]
    | inr new ↦ elim h [
      | inl e ↦ inr (rw new (inl e))
      | inr later ↦ elim (deduplicate_complete_from (key c ∷ seen) k cs later) [
        | inr kept ↦ inr (rw new (inr kept))
        | inl met ↦ elim (Bool-cases (text_eqb k (key c))) [
          | inl e ↦ inr (rw new (inl (sym ((text_eqb_iff k (key c)).0 e))))
          | inr e ↦ inl (ground (arith, met))
        ]
      ]
    ]
  ]

  deduplicate_complete :
      (chunks : List (VectorSearchResult F V)) (k : Text)
      → HasKey k chunks
      → HasKey k (deduplicate backend [] chunks)
  unfolding text_in
  deduplicate_complete chunks k h = elim (deduplicate_complete_from [] k chunks h) [
    | inl met ↦ cc
    | inr kept ↦ kept
  ]

  All-HasKey :
      (out chunks : List (VectorSearchResult F V))
      → ((k : Text) → HasKey k chunks → HasKey k out)
      → All (λ c. HasKey (key c) out) chunks
  All-HasKey out [] found = tt
  All-HasKey out (c ∷ cs) found =
      (found (key c) (inl refl), All-HasKey out cs (λ k later. found k (inr later)))

  -- No two of the chunks that stay have the same key, that is, the same fingerprint; and each chunk
  -- has the key of one that stays.
  deduplicate-DistinctKeys :
      (chunks : List (VectorSearchResult F V))
      → DistinctKeys (deduplicate backend [] chunks)
        × All (λ c. HasKey (key c) (deduplicate backend [] chunks)) chunks
  deduplicate-DistinctKeys chunks = (
    deduplicate-DistinctKeys_from [] chunks,
    All-HasKey (deduplicate backend [] chunks) chunks (deduplicate_complete chunks),
  )
