-- ===== src/Hybrid/Fusion.antt =====
-- ai-service/app/services/hybrid_retrieval/rrf.py: reciprocal rank fusion of two ranked lists.
pub mod Keys
pub mod Scores
pub mod Result
use mkc.Prelude.{ℕ, suc, ◌+◌, Option, none, some, List, [], ◌∷◌}
use mkc.Prelude.Text.{Text}
use mkc.Prelude.Order.{Float, sort_desc}
use mkc.Prelude.Dict.{lookup, insert, set_default}
use mkc.Retrieval.{get_or}
use mkc.Hybrid.{SearchResult}

-- The two dictionaries `scores` and `meta`.
pub record Tables (F V : Type 0) : Type 0 where
  pub scores : List (Text × F)
  pub meta : List (Text × SearchResult F V)

module _ {F V : Type 0} (fl : Float F) where
  -- The loop over the hits of one path; `rank` is the counter of `enumerate`.
  unfoldable pub add_hits : F → ℕ → ℕ → List (SearchResult F V) → Tables F V → Tables F V
  add_hits weight k rank [] t = t
  add_hits weight k rank (hit ∷ hits) t =
      let old = get_or (lookup hit.chunk_id t.scores) fl.nought in
      add_hits weight k (suc rank) hits (record {
        scores = insert hit.chunk_id (fl.add old (fl.over weight (k + rank + 1))) t.scores;
        meta = set_default hit.chunk_id hit t.meta;
      })

  -- Both loops
  unfoldable pub tally : List (SearchResult F V) → List (SearchResult F V) → F → F → ℕ → Tables F V
  tally bm25_hits vector_hits bm25_weight vector_weight k =
      add_hits vector_weight k 0 vector_hits
        (add_hits bm25_weight k 0 bm25_hits (record { scores = []; meta = [] }))

  -- The list that is returned; `none` is a `KeyError` at `meta[cid]`.
  unfoldable pub carry :
      List (Text × SearchResult F V) → List (Text × F) → Option (List (SearchResult F V))
  carry meta [] = some []
  carry meta ((cid, score) ∷ ordered) = elim (lookup cid meta) [
    | none ↦ none
    | some hit ↦ elim (carry meta ordered) [
      | none ↦ none
      | some rest ↦ some (record hit { score = score } ∷ rest)
    ]
  ]

  -- `reciprocal_rank_fusion`
  unfoldable pub reciprocal_rank_fusion :
      List (SearchResult F V)
      → List (SearchResult F V)
      → F
      → F
      → ℕ
      → Option (List (SearchResult F V))
  reciprocal_rank_fusion bm25_hits vector_hits bm25_weight vector_weight k =
      let t = tally bm25_hits vector_hits bm25_weight vector_weight k in
      carry t.meta (sort_desc fl (λ (item : Text × F). item.1) t.scores)
