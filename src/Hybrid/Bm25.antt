-- ===== src/Hybrid/Bm25.antt =====
-- ai-service/app/services/hybrid_retrieval/bm25_store.py. jieba and rank-bm25 are the record `Engine`.
pub mod Hits
use mkc.Prelude.{
  ℕ, zero, suc, ◌+◌, ◌≤◌, ◌<◌, Bool, true, false, ◌&&◌, ◌||◌, not, Option, none, some, List, [],
  ◌∷◌, ◌++◌, map, length, length-take, take, get_elem?, keep_if, if◌then◌else◌, All, All-imp,
  All-take, ◌≡◌, refl, arith, Bool-cases, Option-cases, inl, inr, ltb, leb,
}
use mkc.Prelude.Text.{Text, nonempty, text_in, text_eqb, is_space, strip, lstrip}
use mkc.Prelude.Order.{Float, IsOrdered, sort_desc, All-sort_desc, sort_desc-Desc, Desc, Desc-take}
use mkc.Exceptions.{Exception, Result, ok, raise, other, ◌>>=◌, >>=-eq-ok}
use mkc.Models.{Filters}
use mkc.Hybrid.{SearchResult, SearchSource, bm25}

-- `jieba.cut`, `BM25Okapi(corpus)` and `get_scores(tokens)`
pub record Engine (F I : Type 0) : Type 0 where
  pub cut : Text → List Text
  pub build : List (List Text) → Result I
  pub get_scores : I → List Text → Result (List F)

pub data Tokenizer : Type 0 where
  jieba whitespace : Tokenizer

-- `_docs` and `_bm25`
pub record Store (F V I : Type 0) : Type 0 where
  pub docs : List (SearchResult F V)
  pub index : Option I

-- `text.split()`; `word` is the word that is being read.
unfoldable pub words_from : Text → Text → List Text
words_from word [] = if nonempty word then word ∷ [] else []
words_from word (c ∷ s) =
    let inside = words_from (word ++ (c ∷ [])) s in
    let outside = words_from [] s in
    if not (is_space c) then inside else if nonempty word then word ∷ outside else outside

-- `_tokenize`
unfoldable pub tokenize : {F I : Type 0} → Engine F I → Tokenizer → Text → List Text
unfolding words_from
tokenize engine whitespace text = words_from [] text
tokenize engine jieba text =
    if nonempty text then keep_if (λ token. nonempty (strip token)) (engine.cut text) else []

-- `index`
unfoldable pub build_index :
    {F V I : Type 0} → Engine F I → Tokenizer → List (SearchResult F V) → Result (Store F V I)
build_index engine tokenizer docs =
    let corpus = map (λ doc. tokenize engine tokenizer doc.text) docs in
    if nonempty corpus
    then (engine.build corpus >>= λ index. ok (record { docs = docs; index = some index }))
    else ok (record { docs = docs; index = none })

-- `_matches_filters`; a user or a list of resources that is empty filters nothing.
unfoldable pub matches_filters : {F V : Type 0} → SearchResult F V → Option Filters → Bool
matches_filters doc none = true
matches_filters doc (some filters) =
    if nonempty filters.resource_ids && not (text_in doc.resource_id filters.resource_ids)
    then false
    else not (nonempty filters.user_id && not (text_eqb doc.user_id filters.user_id))

-- `enumerate(xs)`, from `i` on
unfoldable pub enumerate_from : {A : Type 0} → ℕ → List A → List (ℕ × A)
enumerate_from i [] = []
enumerate_from i (x ∷ xs) = (i, x) ∷ enumerate_from (suc i) xs

module _ {F V : Type 0} (fl : Float F) where
  -- The loop of `search`; an index out of range is an `IndexError`.
  unfoldable pub collect :
      List (SearchResult F V) → Option Filters → List (ℕ × F) → Result (List (SearchResult F V))
  collect docs filters [] = ok []
  collect docs filters ((idx, score) ∷ ranked) =
      let rest = collect docs filters ranked in
      let hit : Result (List (SearchResult F V)) = elim (get_elem? docs idx) [
        | none ↦ raise other
        | some doc ↦
            if matches_filters doc filters
            then (rest >>= λ hits. ok (record doc { score = score; source = bm25 } ∷ hits))
            else rest
      ] in
      if fl.le score fl.nought then rest else hit

  -- What `search` does with the scores.
  unfoldable pub pick :
      List (SearchResult F V) → ℕ → Option Filters → List F → Result (List (SearchResult F V))
  pick docs top_k filters scores =
      collect docs filters
        (take top_k (sort_desc fl (λ (item : ℕ × F). item.1) (enumerate_from 0 scores)))

  -- `search`
  unfoldable pub search :
      {I : Type 0}
      → Engine F I
      → Tokenizer
      → Store F V I
      → Text
      → ℕ
      → Option Filters
      → Result (List (SearchResult F V))
  search engine tokenizer store query top_k filters = elim store.index [
    | none ↦ ok []
    | some index ↦
        let tokens = tokenize engine tokenizer query in
        if nonempty store.docs && nonempty tokens
        then engine.get_scores index tokens >>= pick store.docs top_k filters
        else ok []
  ]
