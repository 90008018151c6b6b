-- ===== src/Retrieval/Budget.antt =====
-- What `_compress_context` selects within the budget of tokens.
use mkc.Prelude.{
  ℕ, suc, ◌+◌, ◌≤◌, ◌<◌, Bool, true, false, not, ◌&&◌, List, [], ◌∷◌, map, take, length, ltb, ◌⊎◌,
  inl, inr, ◌≡◌, refl, ap, arith, Bool-cases,
}
use mkc.Chunking.{Estimator, count}
use mkc.Models.{VectorSearchResult, RetrievalChunk}
use mkc.Retrieval.{to_retrieval_chunk, compress_from, compress_context}

-- The tokens of a list of chunks.
abbrev pub tokens : {F V : Type 0} → Estimator → List (VectorSearchResult F V) → ℕ
tokens est [] = 0
tokens est (c ∷ cs) = count est c.text + tokens est cs

tokens-take_none :
    {F V : Type 0} (est : Estimator) (cs : List (VectorSearchResult F V)) (n : ℕ)
    → n ≡ 0
    → tokens est (take n cs) ≡ 0
tokens-take_none est cs n h = rw h

module _ {F V : Type 0} (est : Estimator) (budget : ℕ) where
  -- The first `n` chunks are selected, behind `total` tokens: they fit the budget, unless there is
  -- only the first; and with one more chunk they would not.
  pub record Selects (first : Bool) (total : ℕ) (chunks : List (VectorSearchResult F V))
      (result : List (RetrievalChunk F V) × ℕ) (n : ℕ) : Type 0 where
    pub bounded : n ≤ length chunks
    pub prefix : result.0 ≡ map to_retrieval_chunk (take n chunks)
    pub counted : result.1 ≡ total + tokens est (take n chunks)
    pub fits : (result.1 ≤ budget) ⊎ (first ≡ true × (n ≤ 1)) ⊎ (n ≡ 0)
    pub largest : (n ≡ length chunks) ⊎ (budget < total + tokens est (take (suc n) chunks))
    pub one_at_least : (first ≡ false) ⊎ (length chunks ≡ 0) ⊎ (1 ≤ n)

  compress_from-Selects :
      (first : Bool) (total : ℕ) (chunks : List (VectorSearchResult F V))
      → (n : ℕ) × Selects first total chunks (compress_from est budget first total chunks) n
  unfolding compress_from
  compress_from-Selects first total [] = (
    0,
    record {
      bounded = omega arith;
      prefix = refl;
      counted = omega arith;
      fits = inr (inr refl);
      largest = inl refl;
      one_at_least = inr (inl refl);
    },
  )
  compress_from-Selects first total (c ∷ cs) =
      let total' = total + count est c.text in
      let (n, h) = compress_from-Selects false total' cs in
      elim (Bool-cases (not first && ltb budget total')) [
        | inl full ↦ (
          0,
          rw full (record {
            bounded = omega arith;
            prefix = refl;
            counted = omega arith;
            fits = inr (inr refl);
            largest = inr (ground (arith, full));
            one_at_least = ground (arith, full);
          }),
        )
        | inr room ↦ (
          suc n,
          rw room (record {
            bounded = omega (arith, h.bounded);
            prefix = ap (◌∷◌ (to_retrieval_chunk c)) h.prefix;
            counted = omega (arith, h.counted);
            fits = ground (arith, room, h.fits, h.counted, tokens-take_none est cs n);
            largest = elim h.largest [
              | inl all ↦ inl (omega arith)
              | inr more ↦ inr (omega (arith, more))
            ];
            one_at_least = inr (inr (omega arith));
          }),
        )
      ]

  -- What is selected is the first chunks, and their number is largest: at least one if there is one,
  -- and within the budget of tokens unless it is one. The count that comes with them is theirs.
  pub compress_context-Selects :
      (chunks : List (VectorSearchResult F V))
      → (n : ℕ) × Selects true 0 chunks (compress_context est chunks budget) n
  unfolding compress_context
  compress_context-Selects chunks = compress_from-Selects true 0 chunks
