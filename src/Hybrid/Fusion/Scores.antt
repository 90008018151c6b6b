-- ===== src/Hybrid/Fusion/Scores.antt =====
-- The scores and the carriers that the fusion gives, by a description of each chunk on its own.
use mkc.Prelude.{
  ℕ, suc, ◌+◌, Option, none, some, List, [], ◌∷◌, ◌≡◌, refl, ap, sym, ◌∙◌, arith, if◌then◌else◌,
  Bool-cases, inl, inr,
}
use mkc.Prelude.Text.{Text, text_eqb, text_eqb_iff}
use mkc.Prelude.Order.{Float}
use mkc.Prelude.Dict.{lookup, lookup-insert, lookup-set_default}
use mkc.Retrieval.{get_or}
use mkc.Hybrid.{SearchResult}
use mkc.Hybrid.Fusion.{Tables, add_hits, tally}

module _ {F V : Type 0} where
  -- The first hit with the identifier.
  unfoldable pub first_hit : Text → List (SearchResult F V) → Option (SearchResult F V)
  first_hit cid [] = none
  first_hit cid (hit ∷ hits) = if text_eqb cid hit.chunk_id then some hit else first_hit cid hits

  unfoldable pub or_else :
      Option (SearchResult F V) → Option (SearchResult F V) → Option (SearchResult F V)
  or_else none o = o
  or_else (some a) o = some a

  pub first_hit_id :
      (cid : Text) (hits : List (SearchResult F V)) (hit : SearchResult F V)
      → first_hit cid hits ≡ some hit
      → hit.chunk_id ≡ cid
  unfolding first_hit
  first_hit_id cid [] hit h = cc
  first_hit_id cid (x ∷ xs) hit h = elim (Bool-cases (text_eqb cid x.chunk_id)) [
    | inl e ↦
        let same : x ≡ hit = ground (arith, h, e) in
        rw (← same) (sym ((text_eqb_iff cid x.chunk_id).0 e))
    | inr e ↦ first_hit_id cid xs hit (ground (arith, h, e))
  ]

module _ {F V : Type 0} (fl : Float F) where
  -- The score of one chunk after a path: its score before, if it has one, and a share of the weight
  -- for each place at which it stands.
  unfoldable pub path_score : F → ℕ → ℕ → Text → List (SearchResult F V) → Option F → Option F
  path_score weight k rank cid [] score = score
  path_score weight k rank cid (hit ∷ hits) score = path_score weight k (suc rank) cid hits (
      if text_eqb cid hit.chunk_id
      then some (fl.add (get_or score fl.nought) (fl.over weight (k + rank + 1)))
      else score)

  add_hits-path_score :
      (weight : F) (k rank : ℕ) (cid : Text) (hits : List (SearchResult F V)) (t : Tables F V)
      → lookup cid (add_hits fl weight k rank hits t).scores
        ≡ path_score weight k rank cid hits (lookup cid t.scores)
  unfolding add_hits path_score
  add_hits-path_score weight k rank cid [] t = refl
  add_hits-path_score weight k rank cid (hit ∷ hits) t =
      add_hits-path_score weight k (suc rank) cid hits _
      ∙ ap (path_score weight k (suc rank) cid hits) (
          ground (
            arith,
            lookup-insert hit.chunk_id cid
                (fl.add (get_or (lookup hit.chunk_id t.scores) fl.nought)
                  (fl.over weight (k + rank + 1)))
                t.scores,
            text_eqb_iff cid hit.chunk_id,
          ))

  add_hits-first_hit :
      (weight : F) (k rank : ℕ) (cid : Text) (hits : List (SearchResult F V)) (t : Tables F V)
      → lookup cid (add_hits fl weight k rank hits t).meta
        ≡ or_else (lookup cid t.meta) (first_hit cid hits)
  unfolding add_hits first_hit or_else
  add_hits-first_hit weight k rank cid [] t = ground arith
  add_hits-first_hit weight k rank cid (hit ∷ hits) t =
      add_hits-first_hit weight k (suc rank) cid hits _
      ∙ ground (arith, lookup-set_default hit.chunk_id cid hit t.meta)

  module _ (bm25_hits vector_hits : List (SearchResult F V)) (wb wv : F) (k : ℕ) where
    -- The score of a chunk: the shares of both paths, those of the BM25 path first.
    abbrev pub fused_score : Text → Option F
    fused_score cid = path_score wv k 0 cid vector_hits (path_score wb k 0 cid bm25_hits none)

    -- The first hit that carries it, in the BM25 path or else in the vector path.
    abbrev pub carrier : Text → Option (SearchResult F V)
    carrier cid = or_else (first_hit cid bm25_hits) (first_hit cid vector_hits)

    pub tally-fused :
        (cid : Text)
        → let t = tally fl bm25_hits vector_hits wb wv k in
          (lookup cid t.scores ≡ fused_score cid) × (lookup cid t.meta ≡ carrier cid)
    unfolding tally lookup or_else
    tally-fused cid = (
      add_hits-path_score wv k 0 cid vector_hits _
          ∙ ap (path_score wv k 0 cid vector_hits)
              (add_hits-path_score wb k 0 cid bm25_hits (record { scores = []; meta = [] })),
      add_hits-first_hit wv k 0 cid vector_hits _
          ∙ ap (λ o. or_else o (first_hit cid vector_hits))
              (add_hits-first_hit wb k 0 cid bm25_hits (record { scores = []; meta = [] })),
    )
