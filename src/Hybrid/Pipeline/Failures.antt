-- ===== src/Hybrid/Pipeline/Failures.antt =====
-- How the hybrid retrieval fails and degrades.
use mkc.Prelude.{
  ℕ, ◌<◌, Bool, true, false, ◌&&◌, ◌||◌, not, none, some, map, List, [], ◌∷◌, length, take, leb,
  ◌≡◌, ◌⊎◌, refl, ap, ◌∙◌, arith, Bool-cases, Option-cases, inl, inr,
}
use mkc.Prelude.Text.{Text, nonempty}
use mkc.Prelude.Order.{Float}
use mkc.Prelude.Dict.{lookup}
use mkc.Exceptions.{Exception, Result, ◌>>=◌, ok, raise, >>=-eq-ok, is_api, retrieval_unavailable}
use mkc.Hybrid.{
  SearchResult, Request, Config, Params, FusionStats, Answer, resolve_params, to_search_result,
  vector,
}
use mkc.Hybrid.Fusion.{reciprocal_rank_fusion}
use mkc.Hybrid.Bm25.{Store, search}
use mkc.Models.{VectorSearchResult}
use mkc.Hybrid.Pipeline.{
  Services, bm25_cache_key, filters_of, or_failed, build_store, get_or_build_bm25, bm25_retrieve,
  vector_retrieve, choose_chunks, answer_of, check_authorization, finalize_result, deliver, fuse,
  combine, after_bm25, retrieve,
}

length-empty : {A : Type 0} (xs : List A) → not (nonempty xs) ≡ true → 0 ≡ length xs
length-empty [] h = refl
length-empty (x ∷ xs) h = absurd (ground (arith, h))

or_failed-whole :
    {A : Type 0} (default : A) (m : Result A) (a : A)
    → or_failed default m ≡ ok (a, false)
    → m ≡ ok a
unfolding or_failed
or_failed-whole default (ok b) a h = ground (arith, h)
or_failed-whole default (raise e) a h = elim (Bool-cases (is_api e)) [
  | inl known ↦ absurd (ground (arith, h, known))
  | inr other ↦ absurd (ground (arith, h, other))
]

module _ {F V I : Type 0} (fl : Float F) (services : Services F V I) (cfg : Config F)
    (request : Request F) (middle last : ℕ) (cache : List (Text × Store F V I)) where
  -- Where the index is not in the cache, and the corpus and the vector of the question cannot be had
  -- for errors that are no `APIException`, the retrieval is unavailable, and the cache is unchanged.
  hybrid_retrieve-both_failed :
      (e d : Exception)
      → is_api e ≡ false
      → is_api d ≡ false
      → lookup (bm25_cache_key (filters_of request)) cache ≡ none
      → services.query (filters_of request) cfg.bm25_max_docs ≡ raise e
      → services.embed_query request.question ≡ raise d
      → retrieve fl services cfg request middle last cache ≡ (raise retrieval_unavailable, cache)
  unfolding retrieve after_bm25 combine bm25_retrieve vector_retrieve get_or_build_bm25 build_store
      or_failed resolve_params
  hybrid_retrieve-both_failed e d plain_e plain_d cold no_corpus no_vector =
      ground (arith, plain_e, plain_d, cold, no_corpus, no_vector)

  -- What an answer that is not degraded says of the hits and flags of both paths.
  abbrev IsWhole :
      List (SearchResult F V) × Bool → List (SearchResult F V) × Bool → Answer F V → Type 0
  IsWhole (bm25_hits, bf) (vector_hits, vf) answer =
      (bf ≡ false)
      × (vf ≡ false)
      × (answer.fusion.bm25_count ≡ length bm25_hits)
      × (answer.fusion.vector_count ≡ length vector_hits)
      × ((answer.fusion.fused_count ≡ 0) ⊎ (middle < (resolve_params cfg request).timeout_ms))

  late_degraded :
      (params : Params F) (vector_hits fused_top : List (SearchResult F V))
      (chosen : List (SearchResult F V) × Bool)
      → choose_chunks fl services request params middle vector_hits fused_top ≡ ok chosen
      → chosen.1 ≡ false
      → middle < params.timeout_ms
  unfolding choose_chunks
  late_degraded params vector_hits fused_top chosen h in_time =
      elim (Bool-cases (leb params.timeout_ms middle)) [
        | inl late ↦ absurd (ground (arith, h, late, in_time))
        | inr early ↦ ground (arith, early)
      ]

  deliver-IsWhole :
      (bm25_hits vector_hits fused : List (SearchResult F V)) (bf vf : Bool) (answer : Answer F V)
      → deliver fl services request
          (resolve_params cfg request)
          middle
          last
          (bf || vf)
          bm25_hits
          vector_hits
          fused
        ≡ ok answer
      → answer.degraded ≡ false
      → IsWhole (bm25_hits, bf) (vector_hits, vf) answer
  unfolding deliver finalize_result answer_of
  deliver-IsWhole bm25_hits vector_hits fused bf vf answer h whole =
      let params = resolve_params cfg request in
      let fused_top = take params.rerank_top_n fused in
      let fusion : FusionStats = record {
        bm25_count = length bm25_hits;
        vector_count = length vector_hits;
        fused_count = length fused;
      } in
      let (chosen, chose, finalized) =
        >>=-eq-ok (choose_chunks fl services request params middle vector_hits fused_top)
          (λ chosen.
            finalize_result fl services request params fusion (bf || vf || chosen.1) last chosen.0)
          {out = answer} h in
      let (checked, _, built) =
        >>=-eq-ok (check_authorization request.user_id request.resource_ids chosen.0)
          (λ checked. ok (answer_of fl services params fusion (bf || vf || chosen.1) last checked))
          {out = answer} finalized in
      let flag : bf || vf || chosen.1 ≡ false = ground (arith, built, whole) in
      (
        ground (arith, flag),
        ground (arith, flag),
        ground (arith, built),
        ground (arith, built),
        inr (late_degraded params vector_hits fused_top chosen chose (ground (arith, flag))),
      )

  combine-IsWhole :
      (from_bm25 from_vector : List (SearchResult F V) × Bool) (answer : Answer F V)
      → combine fl services request (resolve_params cfg request) middle last from_bm25 from_vector
        ≡ ok answer
      → answer.degraded ≡ false
      → IsWhole from_bm25 from_vector answer
  unfolding combine fuse
  combine-IsWhole (bm25_hits, bf) (vector_hits, vf) answer h whole =
      let params = resolve_params cfg request in
      elim (Bool-cases (bf && vf)) [
        | inl both ↦ absurd (ground (arith, h, both))
        | inr either ↦ elim (Bool-cases (not (nonempty bm25_hits) && not (nonempty vector_hits))) [
          | inl none_found ↦
              let flags : bf || vf ≡ false = ground (arith, h, either, none_found, whole) in
              (
                ground (arith, flags),
                ground (arith, flags),
                ground (arith, h, either, none_found)
                    ∙ length-empty bm25_hits (ground (arith, none_found)),
                ground (arith, h, either, none_found)
                    ∙ length-empty vector_hits (ground (arith, none_found)),
                inl (ground (arith, h, either, none_found)),
              )
          | inr some_found ↦
              elim (Option-cases (
                reciprocal_rank_fusion fl bm25_hits vector_hits params.bm25_weight
                  params.vector_weight params.rrf_k)) [
                    | inl q ↦ absurd (ground (arith, h, either, some_found, q))
                    | inr (fused, q) ↦
                        deliver-IsWhole bm25_hits vector_hits fused bf vf answer
                          (ground (arith, h, either, some_found, q)) whole
                  ]
        ]
      ]

  -- The hits of the BM25 path come from an index that was had, and its search returned them.
  bm25_retrieve-returned :
      (hits : List (SearchResult F V))
      → (bm25_retrieve fl services cfg request (resolve_params cfg request) cache).0
        ≡ ok (hits, false)
      → (store : Store F V I) × ((get_or_build_bm25 fl services cfg
            (filters_of request)
            (resolve_params cfg request)
            cache).0
          ≡ ok store)
        × (search fl services.engine services.tokenizer store request.question
              (resolve_params cfg request).rerank_top_n
              (some (filters_of request))
            ≡ ok hits)
  unfolding bm25_retrieve
  bm25_retrieve-returned hits h =
      let params = resolve_params cfg request in
      >>=-eq-ok (get_or_build_bm25 fl services cfg (filters_of request) params cache).0
        (λ store.
          search fl services.engine services.tokenizer store request.question params.rerank_top_n
            (some (filters_of request)))
        {out = hits} (or_failed-whole [] _ hits h)

  -- The hits of the vector path are those of a search for the vector of the question.
  vector_retrieve-returned :
      (hits : List (SearchResult F V))
      → vector_retrieve fl services request (resolve_params cfg request) ≡ ok (hits, false)
      → (query_vector : List F) × (results : List (VectorSearchResult F V)) × (services.embed_query
            request.question
          ≡ ok query_vector)
        × (services.vector_search query_vector
              (resolve_params cfg request).rerank_top_n
              (filters_of request)
            ≡ ok results)
        × (hits ≡ map (to_search_result vector) results)
  unfolding vector_retrieve
  vector_retrieve-returned hits h =
      let params = resolve_params cfg request in
      let (query_vector, embedded, after) =
        >>=-eq-ok (services.embed_query request.question)
          (λ query_vector.
            services.vector_search query_vector params.rerank_top_n (filters_of request)
            >>= λ results. ok (map (to_search_result vector) results))
          {out = hits} (or_failed-whole [] _ hits h) in
      let (results, searched, built) =
        >>=-eq-ok (services.vector_search query_vector params.rerank_top_n (filters_of request))
          (λ results. ok (map (to_search_result vector) results)) {out = hits} after in
      (query_vector, results, embedded, searched, ground (arith, built))

  -- What an answer rests on where both paths return: the calls with their results
  abbrev pub RestsOn : Answer F V → Type 0
  RestsOn answer =
      let params = resolve_params cfg request in
      (bm25_hits : List (SearchResult F V)) × (vector_hits : List (SearchResult F V))
      × ((bm25_retrieve fl services cfg request params cache).0 ≡ ok (bm25_hits, false))
      × (vector_retrieve fl services request params ≡ ok (vector_hits, false))
      × ((store : Store F V I) × ((get_or_build_bm25 fl services cfg (filters_of request) params
              cache).0
            ≡ ok store)
          × (search fl services.engine services.tokenizer store request.question params.rerank_top_n
                (some (filters_of request))
              ≡ ok bm25_hits))
      × ((query_vector : List F) × (results : List (VectorSearchResult F V)) × (services.embed_query
              request.question
            ≡ ok query_vector)
          × (services.vector_search query_vector params.rerank_top_n (filters_of request)
              ≡ ok results)
          × (vector_hits ≡ map (to_search_result vector) results))
      × (answer.fusion.bm25_count ≡ length bm25_hits)
      × (answer.fusion.vector_count ≡ length vector_hits)
      × ((answer.fusion.fused_count ≡ 0) ⊎ (middle < params.timeout_ms))

  -- For an answer that is not degraded, the index of the BM25 path was had, from the cache or built, and
  -- its search returned; the question was embedded, and the vector search for its vector returned. The
  -- answer counts the hits of both; if any chunk was fused, the time was not over before the chunks
  -- were chosen.
  pub hybrid_retrieve-not_degraded :
      (answer : Answer F V)
      → (retrieve fl services cfg request middle last cache).0 ≡ ok answer
      → answer.degraded ≡ false
      → RestsOn answer
  unfolding retrieve after_bm25
  hybrid_retrieve-not_degraded answer h whole =
      let params = resolve_params cfg request in
      let (from_bm25, bm25_path, after) =
        >>=-eq-ok (bm25_retrieve fl services cfg request params cache).0
          (after_bm25 fl services request params middle last) {out = answer} h in
      let (from_vector, vector_path, combined) =
        >>=-eq-ok (vector_retrieve fl services request params)
          (combine fl services request params middle last from_bm25) {out = answer} after in
      let (b, v, bm25_count, vector_count, in_time) =
        combine-IsWhole from_bm25 from_vector answer combined whole in
      let bm25_whole = bm25_path ∙ ap (λ flag. ok (from_bm25.0, flag)) b in
      let vector_whole = vector_path ∙ ap (λ flag. ok (from_vector.0, flag)) v in
      (
        from_bm25.0,
        from_vector.0,
        bm25_whole,
        vector_whole,
        bm25_retrieve-returned from_bm25.0 bm25_whole,
        vector_retrieve-returned from_vector.0 vector_whole,
        bm25_count,
        vector_count,
        in_time,
      )
