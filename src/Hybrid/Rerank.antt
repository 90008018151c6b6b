-- ===== src/Hybrid/Rerank.antt =====
-- ai-service/app/services/hybrid_retrieval/reranker.py. The cross-encoder is a parameter: `predict`
-- gives a score for each pair of the query and a text, or fails.
use mkc.Prelude.{
  ℕ, ◌≤◌, Option, none, some, List, [], ◌∷◌, map, length, length-map, length-take, take,
  if◌then◌else◌, All, All-take, All-map, All-imp, ◌≡◌, arith,
}
use mkc.Prelude.Text.{Text, nonempty}
use mkc.Prelude.Order.{Float, sort_desc, All-sort_desc}
use mkc.Exceptions.{Result, ok, raise, other, ◌>>=◌, >>=-eq-ok}
use mkc.Hybrid.{SearchResult, rerank}

-- `predict`; loading the model on the first call may fail as well, and counts to it.
abbrev pub Model : Type 0 → Type 0
Model F = List (Text × Text) → Result (List F)

module _ {F V : Type 0} (fl : Float F) where
  -- `zip(candidates, raw_scores, strict=True)`: a list of another length is a `ValueError`.
  unfoldable pub zip_strict :
      List (SearchResult F V) → List F → Result (List (SearchResult F V × F))
  zip_strict [] [] = ok []
  zip_strict (c ∷ cs) (s ∷ ss) = zip_strict cs ss >>= λ rest. ok ((c, s) ∷ rest)
  zip_strict _ _ = raise other

  unfoldable pub rescore : SearchResult F V × F → SearchResult F V
  rescore (candidate, score) = record candidate { score = score; source = rerank }

  -- The ranked candidates with their new scores.
  unfoldable pub ranked : ℕ → List (SearchResult F V × F) → List (SearchResult F V)
  ranked top_n pairs =
      map rescore (take top_n (sort_desc fl (λ (item : SearchResult F V × F). item.1) pairs))

  -- `rerank`; a model of `none` is a reranker that is disabled.
  unfoldable pub rerank_candidates :
      Option (Model F) → Text → List (SearchResult F V) → ℕ → Result (List (SearchResult F V))
  rerank_candidates none query candidates top_n = ok (take top_n candidates)
  rerank_candidates (some predict) query candidates top_n =
      if nonempty candidates
      then (predict (map (λ candidate. (query, candidate.text)) candidates)
          >>= zip_strict candidates
          >>= λ pairs. ok (ranked top_n pairs))
      else ok (take top_n candidates)

  zip_strict-All :
      (P : SearchResult F V → Type 0) (cs : List (SearchResult F V)) (ss : List F)
      (pairs : List (SearchResult F V × F))
      → zip_strict cs ss ≡ ok pairs
      → All P cs
      → All (λ item. P item.0) pairs
  unfolding zip_strict
  zip_strict-All P [] [] pairs h all = let e : pairs ≡ [] = ground (arith, h) in rw e tt
  zip_strict-All P [] (s ∷ ss) pairs h all = cc
  zip_strict-All P (c ∷ cs) [] pairs h all = cc
  zip_strict-All P (c ∷ cs) (s ∷ ss) pairs h all =
      let (rest, zipped, built) = >>=-eq-ok (zip_strict cs ss) (λ rest. ok ((c, s) ∷ rest)) h in
      let e : pairs ≡ (c, s) ∷ rest = ground (arith, built) in
      rw e (all.0, zip_strict-All P cs ss rest zipped all.1)

  ranked-All :
      (P : SearchResult F V → Type 0) (top_n : ℕ) (pairs : List (SearchResult F V × F))
      → ((c : SearchResult F V) (s : F) → P c → P (record c { score = s; source = rerank }))
      → All (λ item. P item.0) pairs
      → All P (ranked top_n pairs) × (length (ranked top_n pairs) ≤ top_n)
  unfolding ranked rescore
  ranked-All P top_n pairs stable all =
      let by_score = sort_desc fl (λ (item : SearchResult F V × F). item.1) pairs in
      let sorted =
        All-sort_desc fl (λ (item : SearchResult F V × F). item.1) (λ item. P item.0) pairs all in
      (
        All-map P rescore (take top_n by_score) (
            All-imp (λ item p. stable item.0 item.1 p) (take top_n by_score)
              (All-take (λ item. P item.0) top_n by_score sorted)),
        omega (arith, length-map rescore (take top_n by_score), length-take top_n by_score),
      )

  -- What a predicate says that does not depend on score and source, and holds of all candidates,
  -- holds of all that are returned; they are `top_n` at most.
  pub rerank_candidates-All :
      (P : SearchResult F V → Type 0) (model : Option (Model F)) (query : Text)
      (candidates : List (SearchResult F V)) (top_n : ℕ) (out : List (SearchResult F V))
      → ((c : SearchResult F V) (s : F) → P c → P (record c { score = s; source = rerank }))
      → All P candidates
      → rerank_candidates model query candidates top_n ≡ ok out
      → All P out × (length out ≤ top_n)
  unfolding rerank_candidates
  rerank_candidates-All P none query cs top_n out stable all h =
      let e : take top_n cs ≡ out = ground (arith, h) in
      rw (← e) (All-take P top_n cs all, omega (arith, length-take top_n cs))
  rerank_candidates-All P (some predict) query [] top_n out stable all h =
      let nothing : List (SearchResult F V) = [] in
      let e : take top_n nothing ≡ out = ground (arith, h) in
      rw (← e) (All-take P top_n nothing tt, omega (arith, length-take top_n nothing))
  rerank_candidates-All P (some predict) query (c ∷ cs) top_n out stable all h =
      let (pairs, zipped, built) =
        >>=-eq-ok
          (predict (map (λ candidate. (query, candidate.text)) (c ∷ cs)) >>= zip_strict (c ∷ cs))
          (λ pairs. ok (ranked top_n pairs)) h in
      let (scores, _, paired) =
        >>=-eq-ok (predict (map (λ candidate. (query, candidate.text)) (c ∷ cs)))
          (zip_strict (c ∷ cs)) zipped in
      let e : ranked top_n pairs ≡ out = ground (arith, built) in
      rw (← e) (ranked-All P top_n pairs stable (zip_strict-All P (c ∷ cs) scores pairs paired all))
