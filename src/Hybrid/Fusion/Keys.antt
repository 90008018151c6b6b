-- ===== src/Hybrid/Fusion/Keys.antt =====
-- The fusion never misses a key, and returns the chunks in order of their scores.
use mkc.Prelude.{ℕ, suc, true, some, List, [], ◌∷◌, All, All-imp, ◌≡◌, refl, ap, sym, ◌∙◌, arith}
use mkc.Prelude.Text.{Text, text_in, text_eqb_refl}
use mkc.Prelude.Order.{Float, sort_desc, All-sort_desc}
use mkc.Prelude.Dict.{keys, add_key, keys-insert, keys-set_default, lookup_of_key}
use mkc.Hybrid.{SearchResult}
use mkc.Hybrid.Fusion.{Tables, add_hits, tally, carry, reciprocal_rank_fusion}

-- each item has a key of the list
items-keys :
    {F : Type 0} (ks : List Text) (d : List (Text × F))
    → All (λ j. text_in j ks ≡ true) (keys d)
    → All (λ item. text_in item.0 ks ≡ true) d
items-keys ks [] h = tt
items-keys ks ((k, v) ∷ d) h = (h.0, items-keys ks d h.1)

module _ {F V : Type 0} (fl : Float F) where
  -- the two dictionaries have the same keys, in the same order
  add_hits-keys :
      (weight : F) (k rank : ℕ) (hits : List (SearchResult F V)) (t : Tables F V)
      → keys t.scores ≡ keys t.meta
      → keys (add_hits fl weight k rank hits t).scores
        ≡ keys (add_hits fl weight k rank hits t).meta
  unfolding add_hits
  add_hits-keys weight k rank [] t h = h
  add_hits-keys weight k rank (hit ∷ hits) t h = add_hits-keys weight k (suc rank) hits _ (
      keys-insert hit.chunk_id _ t.scores
      ∙ ap (add_key hit.chunk_id) h
      ∙ sym (keys-set_default hit.chunk_id hit t.meta))

  pub tally-keys :
      (bm25_hits vector_hits : List (SearchResult F V)) (wb wv : F) (k : ℕ)
      → let t = tally fl bm25_hits vector_hits wb wv k in keys t.scores ≡ keys t.meta
  unfolding tally
  tally-keys bm25_hits vector_hits wb wv k =
      add_hits-keys wv k 0 vector_hits _ (add_hits-keys wb k 0 bm25_hits _ refl)

  carry-some :
      (meta : List (Text × SearchResult F V)) (items : List (Text × F))
      → All (λ item. text_in item.0 (keys meta) ≡ true) items
      → (out : List (SearchResult F V)) × (carry fl meta items ≡ some out)
  unfolding carry
  carry-some meta [] h = ([], refl)
  carry-some meta ((cid, score) ∷ items) h =
      let (hit, found) = lookup_of_key cid meta h.0 in
      let (rest, built) = carry-some meta items h.1 in
      (record hit { score = score } ∷ rest, ground (arith, found, built))

text_in_self : (ks : List Text) → All (λ j. text_in j ks ≡ true) ks
unfolding text_in
text_in_self [] = tt
text_in_self (k ∷ ks) =
    (rw (text_eqb_refl k), All-imp (λ j h. ground (arith, h)) ks (text_in_self ks))

-- The fusion returns a list: no chunk that has a score lacks its carrier.
reciprocal_rank_fusion_total :
    {F V : Type 0} (fl : Float F) (bm25_hits vector_hits : List (SearchResult F V)) (wb wv : F)
    (k : ℕ)
    → (out : List (SearchResult F V)) × (reciprocal_rank_fusion fl bm25_hits vector_hits wb wv k
        ≡ some out)
unfolding reciprocal_rank_fusion
reciprocal_rank_fusion_total {F} fl bm25_hits vector_hits wb wv k =
    let t = tally fl bm25_hits vector_hits wb wv k in
    carry-some fl t.meta (sort_desc fl (λ (item : Text × F). item.1) t.scores) (
      All-sort_desc fl (λ (item : Text × F). item.1) (λ item. text_in item.0 (keys t.meta) ≡ true)
        t.scores
        (items-keys (keys t.meta) t.scores
          (rw (tally-keys fl bm25_hits vector_hits wb wv k) (text_in_self (keys t.meta)))))
