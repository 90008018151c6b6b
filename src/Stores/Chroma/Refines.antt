-- ===== src/Stores/Chroma/Refines.antt =====
-- The store keeps records, in no order: what its operations do to them, and what a query returns of
-- them, where the collection does what Chroma documents.
use mathlib.Core.List.{Permᴰ}
use mathlib.Core.List.Permᴰ
use mkc.Prelude.{
  ℕ, ◌+◌, ◌-◌, min, All-append, All-map, All-imp, not, Option, List, [], ◌∷◌, ◌++◌, map, length,
  length-map, length-keep_if, keep_if, All, All-keep_if, ◌≡◌, refl, ap, sym, ◌∙◌, arith,
}
use mkc.Prelude.Text.{Text}
use mkc.Exceptions.{ok, >>=-eq-ok}
use mkc.Models.{VectorRecord, VectorSearchResult}
use mkc.Indexing.{Value}
use mkc.Stores.{StoreFilters, Arith}
use mkc.Stores.Chroma.{
  search_filter, resource_filter, ChromaRow, Collection, Casts, to_row, guarded, to_results, upsert,
  delete_by_resource, query,
}
use mkc.Stores.Chroma.Plain.{IsPlain, matches, matches_if}
use mkc.Stores.Chroma.Holding.{
  id_of, shown_of, DistinctIds, AreNew, IsCollection, IsCasts, Holds, result_of, is_selected,
  is_target, row_matches, row_is_target, guarded-eq-ok, to_results_lem,
}
use mkc.Prelude.Reorder.{
  keep_if-ext, keep_if-map, Perm-keep_if, Perm-All, Perm-length, Perm-map, append-map,
}

map-append : {A B : Type 0} (f : A → B) (xs ys : List A) → map f (xs ++ ys) ≡ map f xs ++ map f ys
map-append f [] ys = refl
map-append f (x ∷ xs) ys = ap (◌∷◌ (f x)) (map-append f xs ys)

-- the rows of records have their identifiers
module _ {F : Type 0} where
  abbrev row_id : ChromaRow F → Text
  row_id row = row.id

  DistinctIds-rows :
      (xs : List (ℕ × VectorRecord F (Value F)))
      → DistinctIds id_of xs
      → DistinctIds row_id (map to_row xs)
  unfolding to_row
  DistinctIds-rows [] h = tt
  DistinctIds-rows (x ∷ xs) h = (All-map _ to_row xs h.0, DistinctIds-rows xs h.1)

  AreNew-rows :
      (added records : List (ℕ × VectorRecord F (Value F))) (rows : List (ChromaRow F))
      → Permᴰ rows (map to_row records)
      → AreNew id_of added records
      → AreNew row_id (map to_row added) rows
  unfolding to_row
  AreNew-rows added records rows perm (distinct, apart) = (
    DistinctIds-rows added distinct,
    All-map _ to_row added (
        All-imp
          (λ x h.
            Perm-All _ (map to_row records) rows (Permᴰ.symm perm) (All-map _ to_row records h))
          added apart),
  )

-- What a query gives: records that are selected, as they were written, as many as there are up to the
-- limit and 100, in some order
abbrev pub IsChosen :
    {F : Type 0}
    → F
    → ℕ
    → List (ℕ × VectorRecord F (Value F))
    → List (VectorSearchResult F (Value F))
    → Type 0
IsChosen {F} nought limit selected out =
    (chosen : List (ℕ × VectorRecord F (Value F))) × (others : List (ℕ × VectorRecord F (Value F)))
    × Permᴰ (chosen ++ others) selected
    × (length chosen ≡ min (min limit 100) (length selected))
    × (out ≡ map (result_of nought) chosen)

All-append_left :
    {F : Type 0} (xs ys : List (ℕ × VectorRecord F (Value F)))
    → All IsPlain (xs ++ ys)
    → All IsPlain xs
All-append_left [] ys h = tt
All-append_left (x ∷ xs) ys h = (h.0, All-append_left xs ys h.1)

module _ {S F : Type 0} (fl : Arith F) (casts : Casts F) (collection : Collection S F)
    (rows : S → List (ChromaRow F)) (lawful : IsCollection collection rows) where
  upsert-Holds :
      (s after : S) (n : ℕ) (records added : List (ℕ × VectorRecord F (Value F)))
      → Holds rows s records
      → All IsPlain added
      → AreNew id_of added records
      → upsert fl casts collection added s ≡ ok (n, after)
      → Holds rows after (added ++ records) × (n ≡ length added)
  unfolding upsert
  upsert-Holds s after n records [] held plain fresh h =
      let same : s ≡ after = ground (arith, h) in (rw (← same) held, ground (arith, h))
  upsert-Holds s after n records (first ∷ others) held plain fresh h =
      let added = first ∷ others in
      let (next, called, e) =
        >>=-eq-ok (guarded (collection.upsert (map to_row added) s)) (λ a. ok (length added, a))
          {out = (n, after)} h in
      let same : next ≡ after = ground (arith, e) in
      let stored =
        lawful.upserts (map to_row added) s next
          (guarded-eq-ok (collection.upsert (map to_row added) s) next called)
          (AreNew-rows added records (rows s) held.0 fresh) in
      let joined : Permᴰ (map to_row added ++ rows s) (map to_row (added ++ records)) =
        rw (map-append to_row added records) (Permᴰ.append_left (map to_row added) held.0) in
      (
        (rw (← same) (Permᴰ.trans stored joined), All-append IsPlain added records plain held.1),
        ground (arith, e),
      )

  delete-Holds :
      (s after : S) (n : ℕ) (records : List (ℕ × VectorRecord F (Value F))) (resource_id : Text)
      (user_id : Option Text)
      → Holds rows s records
      → delete_by_resource fl casts collection resource_id user_id s ≡ ok (n, after)
      → let kept = keep_if (λ x. not (is_target resource_id user_id x)) records in
        Holds rows after kept × (n + length kept ≡ length records)
  unfolding delete_by_resource
  delete-Holds s after n records resource_id user_id held h =
      let w = resource_filter resource_id user_id in
      let p = λ (row : ChromaRow F). not (matches w row.metadata) in
      let kept = keep_if (λ x. not (is_target resource_id user_id x)) records in
      let (next, called, e) =
        >>=-eq-ok (guarded (collection.delete w s))
          (λ a. ok (collection.count s - collection.count a, a)) {out = (n, after)} h in
      let same : next ≡ after = ground (arith, e) in
      let image : keep_if p (map to_row records) ≡ map to_row kept =
        keep_if-map to_row p records
        ∙ ap (map to_row) (
            keep_if-ext _ (λ x. not (is_target resource_id user_id x)) records
              (row_is_target resource_id user_id records held.1)) in
      let left : Permᴰ (rows next) (map to_row kept) = rw (← image) (
        Permᴰ.trans (lawful.deletes w s next (guarded-eq-ok (collection.delete w s) next called))
          (Perm-keep_if p (rows s) (map to_row records) held.0)) in
      let counted : n ≡ collection.count s - collection.count next = ground (arith, e) in
      (
        (rw (← same) left, All-keep_if IsPlain _ records held.1),
        omega (
          arith,
          counted,
          lawful.counts s,
          lawful.counts next,
          Perm-length (rows s) (map to_row records) held.0,
          Perm-length (rows next) (map to_row kept) left,
          length-map to_row records,
          length-map to_row kept,
          length-keep_if (λ x. not (is_target resource_id user_id x)) records,
        ),
      )

  to_results-IsChosen :
      (records : List (ℕ × VectorRecord F (Value F))) (filters : StoreFilters) (limit : ℕ)
      (kept : List (ℕ × VectorRecord F (Value F))) (matching : List (ChromaRow F))
      (chosen others : List (ChromaRow F)) (out : List (VectorSearchResult F (Value F)))
      → IsCasts casts
      → All IsPlain kept
      → Permᴰ matching (map to_row kept)
      → Permᴰ (chosen ++ others) matching
      → length chosen ≡ min (min limit 100) (length matching)
      → to_results casts (λ shown. fl.nought) (map shown_of chosen) ≡ ok out
      → IsChosen fl.nought limit kept out
  to_results-IsChosen records filters limit kept matching chosen others out cast plain image perm
        size e =
      let (zs, joined, perm') =
        Perm-map to_row (chosen ++ others) (map to_row kept) kept (Permᴰ.trans perm image) refl in
      let (xs, ys, rows_of_xs, whole) = append-map to_row chosen others zs joined in
      let all : All IsPlain (xs ++ ys) =
        rw (← whole) (Perm-All IsPlain kept zs (Permᴰ.symm perm') plain) in
      let given : ok out ≡ ok (map (result_of fl.nought) xs) =
        sym e
        ∙ ap (λ rs. to_results casts (λ shown. fl.nought) (map shown_of rs)) rows_of_xs
        ∙ to_results_lem casts cast fl.nought xs (All-append_left xs ys all) in
      (
        xs,
        ys,
        rw (← whole) perm',
        omega (
          arith,
          size,
          ap length rows_of_xs,
          length-map to_row xs,
          Perm-length matching (map to_row kept) image,
          length-map to_row kept,
        ),
        cc,
      )

  query-IsChosen :
      (s : S) (records : List (ℕ × VectorRecord F (Value F))) (filters : StoreFilters) (limit : ℕ)
      (out : List (VectorSearchResult F (Value F)))
      → IsCasts casts
      → Holds rows s records
      → query fl casts collection filters limit s ≡ ok out
      → IsChosen fl.nought limit (keep_if (is_selected filters) records) out
  unfolding query
  query-IsChosen s records filters limit out cast held h =
      let w = search_filter filters in
      let n = min limit 100 in
      let met = λ (row : ChromaRow F). matches_if w row.metadata in
      let kept = keep_if (is_selected filters) records in
      let (found, called, e) =
        >>=-eq-ok (guarded (collection.get w n s)) (to_results casts (λ shown. fl.nought))
          {out = out} h in
      let (chosen, others, perm, size, shown) =
        lawful.gets w n s found (guarded-eq-ok (collection.get w n s) found called) in
      let image : keep_if met (map to_row records) ≡ map to_row kept =
        keep_if-map to_row met records
        ∙ ap (map to_row)
            (keep_if-ext _ (is_selected filters) records (row_matches filters records held.1)) in
      to_results-IsChosen records filters limit kept (keep_if met (rows s)) chosen others out cast
        (All-keep_if IsPlain (is_selected filters) records held.1)
        (rw (← image) (Perm-keep_if met (rows s) (map to_row records) held.0)) perm size
        (ap (to_results casts (λ shown. fl.nought)) (sym shown) ∙ e)

-- The store refines a collection of records in no order. Where a state holds records that bring none of
-- the entries which the store adds, and so does what is written, with identifiers that are new: after
-- `upsert` the state holds both, and the number written is returned; after a deletion it holds the records
-- that are not of the resource and, where one is given, of the user, and the number of the others is
-- returned; and a query returns records that its filters select, as they were written, as many as
-- there are up to the limit and to 100.
pub store-Refines :
    {S F : Type 0} (fl : Arith F) (casts : Casts F) (collection : Collection S F)
    (rows : S → List (ChromaRow F)) (s written left : S)
    (records added : List (ℕ × VectorRecord F (Value F))) (n m : ℕ) (resource_id : Text)
    (user_id : Option Text) (filters : StoreFilters) (limit : ℕ)
    (out : List (VectorSearchResult F (Value F)))
    → IsCollection collection rows
    → IsCasts casts
    → Holds rows s records
    → All IsPlain added
    → AreNew id_of added records
    → upsert fl casts collection added s ≡ ok (n, written)
    → delete_by_resource fl casts collection resource_id user_id s ≡ ok (m, left)
    → query fl casts collection filters limit s ≡ ok out
    → let kept = keep_if (λ x. not (is_target resource_id user_id x)) records in
      (Holds rows written (added ++ records) × (n ≡ length added))
      × (Holds rows left kept × (m + length kept ≡ length records))
      × IsChosen fl.nought limit (keep_if (is_selected filters) records) out
store-Refines fl casts collection rows s written left records added n m resource_id user_id filters
      limit out lawful cast held plain fresh wrote deleted found =
    (
      upsert-Holds fl casts collection rows lawful s written n records added held plain fresh wrote,
      delete-Holds fl casts collection rows lawful s left m records resource_id user_id held
          deleted,
      query-IsChosen fl casts collection rows lawful s records filters limit out cast held found,
    )
