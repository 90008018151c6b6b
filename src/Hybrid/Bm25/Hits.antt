-- ===== src/Hybrid/Bm25/Hits.antt =====
-- What a BM25 search returns, and that no index is out of range.
use mkc.Prelude.{
  ℕ, zero, suc, ◌+◌, ◌≤◌, ◌<◌, true, false, ◌&&◌, Option, some, List, [], ◌∷◌, length, length-take,
  take, get_elem?, All, All-take, ◌≡◌, refl, arith, Bool-cases, Option-cases, inl, inr,
}
use mkc.Prelude.Text.{Text, nonempty}
use mkc.Prelude.Order.{Float, sort_desc, All-sort_desc}
use mkc.Exceptions.{ok, >>=-eq-ok}
use mkc.Models.{Filters}
use mkc.Hybrid.{SearchResult, bm25}
use mkc.Hybrid.Bm25.{
  Engine, Tokenizer, Store, tokenize, matches_filters, enumerate_from, collect, pick, search,
}

get_elem?-in_range :
    {A : Type 0} (xs : List A) (i : ℕ) → i < length xs → (x : A) × (get_elem? xs i ≡ some x)
get_elem?-in_range [] i h = absurd (omega arith)
get_elem?-in_range (x ∷ xs) zero h = (x, refl)
get_elem?-in_range (x ∷ xs) (suc i) h = get_elem?-in_range xs i (omega arith)

enumerate_from-in_range :
    {A : Type 0} (i n : ℕ) (xs : List A)
    → i + length xs ≤ n
    → All (λ item. item.0 < n) (enumerate_from i xs)
unfolding enumerate_from
enumerate_from-in_range i n [] h = tt
enumerate_from-in_range i n (x ∷ xs) h =
    (omega arith, enumerate_from-in_range (suc i) n xs (omega arith))

module _ {F V : Type 0} (fl : Float F) where
  -- A document of the store that is a hit: it passes the filters, and has a score above nought.
  abbrev pub IsHit : List (SearchResult F V) → Option Filters → SearchResult F V → Type 0
  IsHit docs filters hit =
      (fl.le hit.score fl.nought ≡ false)
      × (idx : ℕ) × (doc : SearchResult F V) × (get_elem? docs idx ≡ some doc)
      × (matches_filters doc filters ≡ true)
      × (hit ≡ record doc { score = hit.score; source = bm25 })

  module _ (docs : List (SearchResult F V)) (filters : Option Filters) where
    collect-IsHit :
        (ranked : List (ℕ × F)) (out : List (SearchResult F V))
        → collect fl docs filters ranked ≡ ok out
        → All (IsHit docs filters) out × (length out ≤ length ranked)
    unfolding collect
    collect-IsHit [] out h = let e : out ≡ [] = ground (arith, h) in rw e (tt, omega arith)
    collect-IsHit ((idx, score) ∷ ranked) out h = elim (Bool-cases (fl.le score fl.nought)) [
      | inl low ↦
          let (hits, few) = collect-IsHit ranked out (ground (arith, h, low)) in (hits, omega arith)
      | inr high ↦ elim (Option-cases (get_elem? docs idx)) [
        | inl q ↦ absurd (ground (arith, h, high, q))
        | inr (doc, q) ↦ elim (Bool-cases (matches_filters doc filters)) [
          | inl passes ↦
              let (rest, built, whole) =
                >>=-eq-ok (collect fl docs filters ranked)
                  (λ hits. ok (record doc { score = score; source = bm25 } ∷ hits)) {out = out}
                  (ground (arith, h, high, q, passes)) in
              let e : out ≡ record doc { score = score; source = bm25 } ∷ rest =
                ground (arith, whole) in
              let (hits, few) = collect-IsHit ranked rest built in
              rw e (((high, idx, doc, q, passes, refl), hits), omega arith)
          | inr fails ↦
              let (hits, few) = collect-IsHit ranked out (ground (arith, h, high, q, fails)) in
              (hits, omega arith)
        ]
      ]
    ]

    collect_total :
        (ranked : List (ℕ × F))
        → All (λ item. item.0 < length docs) ranked
        → (out : List (SearchResult F V)) × (collect fl docs filters ranked ≡ ok out)
    unfolding collect
    collect_total [] h = ([], refl)
    collect_total ((idx, score) ∷ ranked) h =
        let (rest, built) = collect_total ranked h.1 in
        let (doc, q) = get_elem?-in_range docs idx h.0 in
        elim (Bool-cases (fl.le score fl.nought)) [
          | inl low ↦ (rest, rw low built)
          | inr high ↦ elim (Bool-cases (matches_filters doc filters)) [
            | inl passes ↦
                (record doc { score = score; source = bm25 } ∷ rest, rw (high, q, passes, built))
            | inr fails ↦ (rest, rw (high, q, fails) built)
          ]
        ]

    pick-IsHit :
        (top_k : ℕ) (scores : List F) (out : List (SearchResult F V))
        → pick fl docs top_k filters scores ≡ ok out
        → All (IsHit docs filters) out × (length out ≤ top_k)
    unfolding pick
    pick-IsHit top_k scores out h =
        let sorted = sort_desc fl (λ (item : ℕ × F). item.1) (enumerate_from 0 scores) in
        let (hits, few) = collect-IsHit (take top_k sorted) out h in
        (hits, omega (arith, length-take top_k sorted))

    -- With a score for each document at most, no index is out of range.
    pick_total :
        (top_k : ℕ) (scores : List F)
        → length scores ≤ length docs
        → (out : List (SearchResult F V)) × (pick fl docs top_k filters scores ≡ ok out)
    unfolding pick
    pick_total top_k scores h =
        let key : ℕ × F → F = λ item. item.1 in
        collect_total (take top_k (sort_desc fl key (enumerate_from 0 scores))) (
          All-take _ top_k (sort_desc fl key (enumerate_from 0 scores)) (
            All-sort_desc fl key (λ item. item.0 < length docs) (enumerate_from 0 scores)
              (enumerate_from-in_range 0 (length docs) scores (omega arith))))

  -- Each result of a search is a document of the store that passes the filters, with its score, which
  -- is above nought, and there are `top_k` at most.
  bm25_search-IsHit :
      {I : Type 0} (engine : Engine F I) (tokenizer : Tokenizer) (store : Store F V I)
      (query : Text) (top_k : ℕ) (filters : Option Filters) (out : List (SearchResult F V))
      → search fl engine tokenizer store query top_k filters ≡ ok out
      → All (IsHit store.docs filters) out × (length out ≤ top_k)
  unfolding search
  bm25_search-IsHit engine tokenizer store query top_k filters out h =
      elim (Option-cases store.index) [
        | inl q ↦ let e : out ≡ [] = ground (arith, h, q) in rw e (tt, omega arith)
        | inr (index, q) ↦
            let tokens = tokenize engine tokenizer query in
            elim (Bool-cases (nonempty store.docs && nonempty tokens)) [
              | inl some_tokens ↦
                  let (scores, _, picked) =
                    >>=-eq-ok (engine.get_scores index tokens) (pick fl store.docs top_k filters)
                      {out = out} (ground (arith, h, q, some_tokens)) in
                  pick-IsHit store.docs filters top_k scores out picked
              | inr no_tokens ↦
                  let e : out ≡ [] = ground (arith, h, q, no_tokens) in rw e (tt, omega arith)
            ]
      ]
