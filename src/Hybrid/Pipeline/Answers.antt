-- ===== src/Hybrid/Pipeline/Answers.antt =====
-- What an answer of the hybrid retrieval holds.
use mkc.Prelude.{
  ℕ, ◌≤◌, Bool, true, false, ◌&&◌, ◌||◌, not, List, [], ◌∷◌, map, length, length-map, length-take,
  length-keep_if, take, keep_if, leb, All, All-keep_if_passed, All-imp, ◌≡◌, ◌⊎◌, ap, arith,
  Bool-cases, Option-cases, inl, inr,
}
use mkc.Prelude.Text.{Text, text_eqb_iff, text_in, nonempty}
use mkc.Prelude.Order.{Float}
use mkc.Exceptions.{Result, ok, raise, >>=-eq-ok, is_api}
use mkc.Hybrid.{SearchResult, Request, Config, Params, FusionStats, Answer, resolve_params}
use mkc.Hybrid.Fusion.{reciprocal_rank_fusion}
use mkc.Hybrid.Rerank.{rerank_candidates-All}
use mkc.Hybrid.Bm25.{Store}
use mkc.Hybrid.Pipeline.{
  Services, or_failed, allowed, check_authorization, bm25_retrieve, vector_retrieve, as_vector,
  timeout_fallback_chunks, rerank_chunks, choose_chunks, answer_of, finalize_result, deliver, fuse,
  combine, after_bm25, retrieve,
}

check_authorization-ok :
    {F V : Type 0} (user_id : Text) (resource_ids : List Text)
    (chunks checked : List (SearchResult F V))
    → check_authorization user_id resource_ids chunks ≡ ok checked
    → (checked ≡ chunks)
      × All (λ c. (c.user_id ≡ user_id) × (text_in c.resource_id resource_ids ≡ true)) chunks
unfolding check_authorization allowed
check_authorization-ok user_id resource_ids [] checked h = (ground (arith, h), tt)
check_authorization-ok user_id resource_ids (x ∷ xs) checked h =
    elim (Bool-cases (allowed user_id resource_ids x)) [
      | inr out ↦ absurd (ground (arith, h, out))
      | inl inside ↦
          let (cs, returned, built) =
            >>=-eq-ok (check_authorization user_id resource_ids xs) (λ c. ok (x ∷ c))
              {out = checked} (ground (arith, h, inside)) in
          let (same, rest) = check_authorization-ok user_id resource_ids xs cs returned in
          (
            ground (arith, built, same),
            (((text_eqb_iff _ _).0 (ground (arith, inside)), ground (arith, inside)), rest),
          )
    ]

or_failed-ok :
    {A : Type 0} (default : A) (m : Result A) (a : A) (failed : Bool)
    → or_failed default m ≡ ok (a, failed)
    → ((m ≡ ok a) × (failed ≡ false)) ⊎ ((a ≡ default) × (failed ≡ true))
unfolding or_failed
or_failed-ok default (ok x) a failed h = inl (ground (arith, h), ground (arith, h))
or_failed-ok default (raise e) a failed h = elim (Bool-cases (is_api e)) [
  | inl api ↦ absurd (ground (arith, h, api))
  | inr plain ↦ inr (ground (arith, h, plain), ground (arith, h, plain))
]

All_unit : {A : Type 0} (xs : List A) → All {0, 0} (λ _. Unit) xs
All_unit [] = tt
All_unit (x ∷ xs) = (tt, All_unit xs)

module _ {F V I : Type 0} (fl : Float F) (services : Services F V I) where
  rerank_chunks-length :
      (question : Text) (fused_top : List (SearchResult F V)) (params : Params F)
      (chunks : List (SearchResult F V)) (failed : Bool)
      → rerank_chunks fl services question fused_top params ≡ ok (chunks, failed)
      → length chunks ≤ params.final_top_k
  unfolding rerank_chunks
  rerank_chunks-length question fused_top params chunks failed h =
      let n = params.final_top_k in
      elim (or_failed-ok (take n fused_top) _ chunks failed h) [
        | inl (e, _) ↦
            (rerank_candidates-All fl (λ c. Unit) services.reranker question fused_top n chunks
              (λ c s u. tt) (All_unit fused_top) e).1
        | inr (e, _) ↦ omega (arith, ap length e, length-take n fused_top)
      ]

  choose_chunks-length :
      (request : Request F) (params : Params F) (elapsed : ℕ)
      (vector_hits fused_top chunks : List (SearchResult F V)) (failed : Bool)
      → choose_chunks fl services request params elapsed vector_hits fused_top ≡ ok (chunks, failed)
      → length chunks ≤ params.final_top_k
  unfolding choose_chunks timeout_fallback_chunks
  choose_chunks-length request params elapsed vector_hits fused_top chunks failed h =
      let n = params.final_top_k in
      elim (Bool-cases (leb params.timeout_ms elapsed)) [
        | inl late ↦ elim (Bool-cases (params.fallback_to_vector && nonempty vector_hits)) [
          | inl to_vector ↦
              let e : chunks ≡ map as_vector (take n vector_hits) =
                ground (arith, h, late, to_vector) in
              omega (
                arith,
                ap length e,
                length-map as_vector (take n vector_hits),
                length-take n vector_hits,
              )
          | inr to_fused ↦
              let e : chunks ≡ take n fused_top = ground (arith, h, late, to_fused) in
              omega (arith, ap length e, length-take n fused_top)
        ]
        | inr early ↦ elim (Bool-cases params.reranker_enabled) [
          | inl on ↦
              rerank_chunks-length request.question fused_top params chunks failed
                (ground (arith, h, early, on))
          | inr off ↦
              let e : chunks ≡ take n fused_top = ground (arith, h, early, off) in
              omega (arith, ap length e, length-take n fused_top)
        ]
      ]

  -- A chunk that the request may see, and that is not below the threshold.
  abbrev pub IsAllowed : Request F → Params F → SearchResult F V → Type 0
  IsAllowed request params c =
      (c.user_id ≡ request.user_id)
      × (text_in c.resource_id request.resource_ids ≡ true)
      × (fl.le params.score_threshold c.score ≡ true)

  -- What an answer promises.
  abbrev pub IsAnswer : Request F → Params F → Answer F V → Type 0
  IsAnswer request params answer =
      All (IsAllowed request params) answer.chunks × (length answer.chunks ≤ params.final_top_k)

  finalize_result-IsAnswer :
      (request : Request F) (params : Params F) (fusion : FusionStats) (degraded : Bool)
      (elapsed : ℕ) (chunks : List (SearchResult F V)) (answer : Answer F V)
      → length chunks ≤ params.final_top_k
      → finalize_result fl services request params fusion degraded elapsed chunks ≡ ok answer
      → IsAnswer request params answer
  unfolding finalize_result answer_of
  finalize_result-IsAnswer request params fusion degraded elapsed chunks answer few h =
      let (checked, valid, built) =
        >>=-eq-ok (check_authorization request.user_id request.resource_ids chunks)
          (λ checked. ok (answer_of fl services params fusion degraded elapsed checked))
          {out = answer} h in
      let (same, inside) =
        check_authorization-ok request.user_id request.resource_ids chunks checked valid in
      let above = λ (c : SearchResult F V). fl.le params.score_threshold c.score in
      let e : answer.chunks ≡ keep_if above chunks = ground (arith, built, same) in
      rw e (
        All-imp (λ c (scope, e). (scope.0, scope.1, e)) (keep_if above chunks)
            (All-keep_if_passed _ above chunks inside),
        omega (arith, length-keep_if above chunks),
      )

  deliver-IsAnswer :
      (request : Request F) (params : Params F) (middle last : ℕ) (degraded : Bool)
      (bm25_hits vector_hits fused : List (SearchResult F V)) (answer : Answer F V)
      → deliver fl services request params middle last degraded bm25_hits vector_hits fused
        ≡ ok answer
      → IsAnswer request params answer
  unfolding deliver
  deliver-IsAnswer request params middle last degraded bm25_hits vector_hits fused answer h =
      let (chosen, chose, built) =
        >>=-eq-ok
          (choose_chunks fl services request params middle vector_hits
            (take params.rerank_top_n fused))
          (λ chosen.
            finalize_result fl services request params _ (degraded || chosen.1) last chosen.0)
          {out = answer} h in
      finalize_result-IsAnswer request params _ (degraded || chosen.1) last chosen.0 answer
        (choose_chunks-length request params middle vector_hits (take params.rerank_top_n fused)
          chosen.0 chosen.1 chose)
        built

  combine-IsAnswer :
      (request : Request F) (params : Params F) (middle last : ℕ)
      (from_bm25 from_vector : List (SearchResult F V) × Bool) (answer : Answer F V)
      → combine fl services request params middle last from_bm25 from_vector ≡ ok answer
      → IsAnswer request params answer
  unfolding combine fuse
  combine-IsAnswer request params middle last (bm25_hits, bf) (vector_hits, vf) answer h =
      elim (Bool-cases (bf && vf)) [
        | inl both ↦ absurd (ground (arith, h, both))
        | inr either ↦ elim (Bool-cases (not (nonempty bm25_hits) && not (nonempty vector_hits))) [
          | inl none_found ↦
              let e : answer.chunks ≡ [] = ground (arith, h, either, none_found) in
              rw e (tt, omega arith)
          | inr some_found ↦
              elim (Option-cases (
                reciprocal_rank_fusion fl bm25_hits vector_hits params.bm25_weight
                  params.vector_weight params.rrf_k)) [
                    | inl q ↦ absurd (ground (arith, h, either, some_found, q))
                    | inr (fused, q) ↦
                        deliver-IsAnswer request params middle last (bf || vf) bm25_hits vector_hits
                          fused answer (ground (arith, h, either, some_found, q))
                  ]
        ]
      ]

  -- Whatever the stores and the cross-encoder return, each chunk of an answer belongs to the user and
  -- to the resources of the request, and has the threshold at least, and there are `final_top_k` at
  -- most; timeouts and failures included.
  pub hybrid_retrieve-IsAnswer :
      (cfg : Config F) (request : Request F) (middle last : ℕ) (cache : List (Text × Store F V I))
      (answer : Answer F V)
      → (retrieve fl services cfg request middle last cache).0 ≡ ok answer
      → IsAnswer request (resolve_params cfg request) answer
  unfolding retrieve after_bm25
  hybrid_retrieve-IsAnswer cfg request middle last cache answer h =
      let params = resolve_params cfg request in
      let (from_bm25, _, after) =
        >>=-eq-ok (bm25_retrieve fl services cfg request params cache).0
          (after_bm25 fl services request params middle last) {out = answer} h in
      let (from_vector, _, combined) =
        >>=-eq-ok (vector_retrieve fl services request params)
          (combine fl services request params middle last from_bm25) {out = answer} after in
      combine-IsAnswer request params middle last from_bm25 from_vector answer combined
