-- ===== src/Hybrid/Fusion/Result.antt =====
-- What the list that the fusion returns holds, and in which order.
use mkc.Prelude.{
  ℕ, suc, true, some, List, [], ◌∷◌, All, ◌≡◌, refl, sym, ◌∙◌, arith, Option-cases, inl, inr,
}
use mkc.Prelude.Text.{Text}
use mkc.Prelude.Order.{Float, IsOrdered, All-sort_desc, sort_desc-Desc, Desc}
use mkc.Prelude.Dict.{lookup, DistinctKeys, insert-DistinctKeys, DistinctKeys-lookup}
use mkc.Hybrid.{SearchResult}
use mkc.Hybrid.Fusion.{Tables, add_hits, tally, carry, reciprocal_rank_fusion}
use mkc.Hybrid.Fusion.Scores.{first_hit, or_else, first_hit_id, fused_score, carrier, tally-fused}

module _ {F V : Type 0} (fl : Float F) where
  carry-cons :
      (meta : List (Text × SearchResult F V)) (cid : Text) (score : F) (items : List (Text × F))
      (out : List (SearchResult F V))
      → carry fl meta ((cid, score) ∷ items) ≡ some out
      → (hit : SearchResult F V) × (rest : List (SearchResult F V)) × (lookup cid meta ≡ some hit)
        × (carry fl meta items ≡ some rest)
        × (out ≡ record hit { score = score } ∷ rest)
  unfolding carry
  carry-cons meta cid score items out h = elim (Option-cases (lookup cid meta)) [
    | inl q ↦ absurd (ground (arith, h, q))
    | inr (hit, q) ↦ elim (Option-cases (carry fl meta items)) [
      | inl r ↦ absurd (ground (arith, h, q, r))
      | inr (rest, r) ↦ (hit, rest, q, r, ground (arith, h, q, r))
    ]
  ]

  add_hits-DistinctKeys :
      (weight : F) (k rank : ℕ) (hits : List (SearchResult F V)) (t : Tables F V)
      → DistinctKeys t.scores
      → DistinctKeys (add_hits fl weight k rank hits t).scores
  unfolding add_hits
  add_hits-DistinctKeys weight k rank [] t h = h
  add_hits-DistinctKeys weight k rank (hit ∷ hits) t h =
      add_hits-DistinctKeys weight k (suc rank) hits _
        (insert-DistinctKeys hit.chunk_id _ t.scores h)

  carry-scores :
      (P : F → Type 0) (meta : List (Text × SearchResult F V)) (items : List (Text × F))
      (out : List (SearchResult F V))
      → carry fl meta items ≡ some out
      → All (λ item. P item.1) items
      → All (λ r. P r.score) out
  unfolding carry
  carry-scores P meta [] out h all = let e : out ≡ [] = ground (arith, h) in rw e tt
  carry-scores P meta ((cid, score) ∷ items) out h all =
      let (hit, rest, found, built, whole) = carry-cons meta cid score items out h in
      rw whole (all.0, carry-scores P meta items rest built all.1)

  carry-Desc :
      (meta : List (Text × SearchResult F V)) (items : List (Text × F))
      (out : List (SearchResult F V))
      → carry fl meta items ≡ some out
      → Desc fl (λ (item : Text × F). item.1) items
      → Desc fl (λ (r : SearchResult F V). r.score) out
  unfolding carry
  carry-Desc meta [] out h d = let e : out ≡ [] = ground (arith, h) in rw e tt
  carry-Desc meta ((cid, score) ∷ items) out h d =
      let (hit, rest, found, built, whole) = carry-cons meta cid score items out h in
      rw whole (
        carry-scores (λ s. fl.le s score ≡ true) meta items rest built d.0,
        carry-Desc meta items rest built d.1,
      )

  carrier_id :
      (cid : Text) (bm25_hits vector_hits : List (SearchResult F V)) (hit : SearchResult F V)
      → or_else (first_hit cid bm25_hits) (first_hit cid vector_hits) ≡ some hit
      → hit.chunk_id ≡ cid
  unfolding or_else
  carrier_id cid bm25_hits vector_hits hit h = elim (Option-cases (first_hit cid bm25_hits)) [
    | inl q ↦ first_hit_id cid vector_hits hit (ground (arith, h, q))
    | inr (x, q) ↦ first_hit_id cid bm25_hits hit (ground (arith, h, q))
  ]

  module _ (bm25_hits vector_hits : List (SearchResult F V)) (wb wv : F) (k : ℕ) where
    -- A chunk of the result: the first hit that carries it, with the fused score.
    abbrev pub IsFused : SearchResult F V → Type 0
    IsFused r =
        (fused_score fl bm25_hits vector_hits wb wv k r.chunk_id ≡ some r.score)
        × (hit : SearchResult F V) × (carrier fl bm25_hits vector_hits wb wv k r.chunk_id
            ≡ some hit)
        × (r ≡ record hit { score = r.score })

    tally-DistinctKeys : DistinctKeys (tally fl bm25_hits vector_hits wb wv k).scores
    unfolding tally
    tally-DistinctKeys =
        add_hits-DistinctKeys wv k 0 vector_hits _ (add_hits-DistinctKeys wb k 0 bm25_hits _ tt)

    carry-IsFused :
        (items : List (Text × F)) (out : List (SearchResult F V))
        → carry fl (tally fl bm25_hits vector_hits wb wv k).meta items ≡ some out
        → All
            (λ item. lookup item.0 (tally fl bm25_hits vector_hits wb wv k).scores ≡ some item.1)
            items
        → All IsFused out
    unfolding carry
    carry-IsFused [] out h all = let e : out ≡ [] = ground (arith, h) in rw e tt
    carry-IsFused ((cid, score) ∷ items) out h all =
        let t = tally fl bm25_hits vector_hits wb wv k in
        let (hit, rest, found, built, whole) = carry-cons t.meta cid score items out h in
        let (scored, carried) = tally-fused fl bm25_hits vector_hits wb wv k cid in
        let from : carrier fl bm25_hits vector_hits wb wv k cid ≡ some hit = sym carried ∙ found in
        let id : hit.chunk_id ≡ cid = carrier_id cid bm25_hits vector_hits hit from in
        rw whole (
          (rw id (sym scored ∙ all.0), hit, rw id from, refl),
          carry-IsFused items rest built all.1,
        )

    -- Each chunk of the result is the first hit with its identifier, of the BM25 path if that has one,
    -- with the sum of its shares in both paths as its score.
    pub reciprocal_rank_fusion-IsFused :
        (out : List (SearchResult F V))
        → reciprocal_rank_fusion fl bm25_hits vector_hits wb wv k ≡ some out
        → All IsFused out
    unfolding reciprocal_rank_fusion
    reciprocal_rank_fusion-IsFused out h =
        let t = tally fl bm25_hits vector_hits wb wv k in
        carry-IsFused _ out h (
          All-sort_desc fl (λ (item : Text × F). item.1)
            (λ item. lookup item.0 t.scores ≡ some item.1) t.scores
            (DistinctKeys-lookup t.scores tally-DistinctKeys))

-- The result is in order of the fused scores, the best first, where floats that are not NaN are
-- compared.
reciprocal_rank_fusion-Desc :
    {F V : Type 0} (fl : Float F) (o : IsOrdered fl)
    (bm25_hits vector_hits : List (SearchResult F V)) (wb wv : F) (k : ℕ)
    (out : List (SearchResult F V))
    → reciprocal_rank_fusion fl bm25_hits vector_hits wb wv k ≡ some out
    → Desc fl (λ (r : SearchResult F V). r.score) out
unfolding reciprocal_rank_fusion
reciprocal_rank_fusion-Desc {F} fl o bm25_hits vector_hits wb wv k out h = carry-Desc fl _ _ out h (
    sort_desc-Desc fl (λ (item : Text × F). item.1) o
      (tally fl bm25_hits vector_hits wb wv k).scores)
