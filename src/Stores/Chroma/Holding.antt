-- ===== src/Stores/Chroma/Holding.antt =====
-- What a state of the collection holds, and what the rows of a query give, where the collection does
-- what Chroma documents.
use mathlib.Core.List.{Permᴰ}
use mkc.Prelude.{
  ℕ, min, Bool, false, ◌&&◌, not, Option, none, some, List, [], ◌∷◌, ◌++◌, map, length, keep_if,
  All, ◌≡◌, refl, ap, ◌∙◌,
}
use mkc.Prelude.Text.{Text, codes, text_eqb}
use mkc.Prelude.Dict.{lookup}
use mkc.Exceptions.{Result, ok, raise}
use mkc.Models.{VectorRecord, VectorSearchResult}
use mkc.Retrieval.{get_or}
use mkc.Indexing.{Value, text_value, int_value}
use mkc.Stores.{StoreFilters, of_user, selects}
use mkc.Stores.Chroma.{
  Where, search_filter, resource_filter, ChromaRow, Shown, Collection, Casts, base, to_row, guarded,
  text_at, created_at_of, to_result, to_results,
}
use mkc.Stores.Chroma.Plain.{
  IsPlain, metadata_lem, keep_if-metadata, matches, matches_if, search_filter-selects,
  resource_filter-selects,
}

-- An entry of the list: a record with the time of its creation
abbrev Entry : Type 0 → Type 0
Entry F = ℕ × VectorRecord F (Value F)

abbrev pub id_of : {F : Type 0} → ℕ × VectorRecord F (Value F) → Text
id_of (created_at, r) = r.id

-- What a row is returned as, without a distance
abbrev pub shown_of : {F : Type 0} → ChromaRow F → Shown F
shown_of row = record {
  id = row.id;
  metadata = some row.metadata;
  document = some row.document;
  distance = none;
}

-- No two items have the same identifier.
abbrev pub DistinctIds : {A : Type 0} → (A → Text) → List A → Type 0
DistinctIds id [] = Unit
DistinctIds id (x ∷ xs) = All (λ y. text_eqb (id x) (id y) ≡ false) xs × DistinctIds id xs

-- Items with identifiers of their own, which none of `old` has
abbrev pub AreNew : {A : Type 0} → (A → Text) → List A → List A → Type 0
AreNew {A} id added old =
    DistinctIds id added × All (λ (x : A). All (λ y. text_eqb (id x) (id y) ≡ false) old) added

-- What Chroma documents of a collection, with its rows in a state, in some order: rows with new
-- identifiers are added (what is merged into a row that is there is left open), a deletion removes the
-- rows that the condition is met by, and `get` gives rows that its condition is met by, as many as there
-- are up to the limit, in any order.
pub record IsCollection {S F : Type 0} (collection : Collection S F) (rows : S → List (ChromaRow F))
    : Type 0 where
  pub upserts :
      (added : List (ChromaRow F)) (s after : S)
      → collection.upsert added s ≡ ok after
      → AreNew (λ (row : ChromaRow F). row.id) added (rows s)
      → Permᴰ (rows after) (added ++ rows s)
  pub deletes :
      (w : Where) (s after : S)
      → collection.delete w s ≡ ok after
      → Permᴰ (rows after) (keep_if (λ (row : ChromaRow F). not (matches w row.metadata)) (rows s))
  pub counts : (s : S) → collection.count s ≡ length (rows s)
  pub gets :
      (w : Option Where) (n : ℕ) (s : S) (found : List (Shown F))
      → collection.get w n s ≡ ok found
      → let matching = keep_if (λ (row : ChromaRow F). matches_if w row.metadata) (rows s) in
        (chosen : List (ChromaRow F)) × (others : List (ChromaRow F)) × Permᴰ
          (chosen ++ others)
          matching
        × (length chosen ≡ min n (length matching))
        × (found ≡ map shown_of chosen)

-- `str` of a text, and `int` of an integer
pub record IsCasts {F : Type 0} (casts : Casts F) : Type 0 where
  pub texts : (t : Text) → casts.to_text (text_value t) ≡ t
  pub ints : (n : ℕ) → casts.to_int (int_value n) ≡ ok n

-- The state holds just these records, in some order, none of which brings an entry that the store adds.
abbrev pub Holds :
    {S F : Type 0} → (S → List (ChromaRow F)) → S → List (ℕ × VectorRecord F (Value F)) → Type 0
Holds rows s records = Permᴰ (rows s) (map to_row records) × All IsPlain records

-- The result that a record gives
abbrev pub result_of :
    {F : Type 0} → F → ℕ × VectorRecord F (Value F) → VectorSearchResult F (Value F)
result_of score (created_at, r) = record {
  id = r.id;
  resource_id = r.resource_id;
  user_id = r.user_id;
  text = r.text;
  metadata = r.metadata;
  score = score;
  created_at = created_at;
}

abbrev pub is_selected : {F : Type 0} → StoreFilters → ℕ × VectorRecord F (Value F) → Bool
is_selected filters (created_at, r) = selects filters r.resource_id r.user_id

-- The record is of the resource, and of the user where one is given.
abbrev pub is_target : {F : Type 0} → Text → Option Text → ℕ × VectorRecord F (Value F) → Bool
is_target resource_id user_id (created_at, r) =
    text_eqb r.resource_id resource_id && of_user user_id r.user_id

pub row_matches :
    {F : Type 0} (filters : StoreFilters) (records : List (ℕ × VectorRecord F (Value F)))
    → All IsPlain records
    → All
        (λ (x : ℕ × VectorRecord F (Value F)).
          matches_if (search_filter filters) (to_row x).metadata ≡ is_selected filters x)
        records
unfolding to_row
row_matches filters [] h = tt
row_matches filters ((created_at, r) ∷ records) h = (
  ap (matches_if (search_filter filters)) (metadata_lem created_at r h.0)
      ∙ search_filter-selects created_at r r.metadata filters,
  row_matches filters records h.1,
)

pub row_is_target :
    {F : Type 0} (resource_id : Text) (user_id : Option Text)
    (records : List (ℕ × VectorRecord F (Value F)))
    → All IsPlain records
    → All
        (λ (x : ℕ × VectorRecord F (Value F)).
          not (matches (resource_filter resource_id user_id) (to_row x).metadata)
          ≡ not (is_target resource_id user_id x))
        records
unfolding to_row
row_is_target resource_id user_id [] h = tt
row_is_target resource_id user_id ((created_at, r) ∷ records) h = (
  ap (λ m. not (matches (resource_filter resource_id user_id) m)) (metadata_lem created_at r h.0)
      ∙ ap not (resource_filter-selects created_at r r.metadata resource_id user_id),
  row_is_target resource_id user_id records h.1,
)

pub guarded-eq-ok : {A : Type 0} (m : Result A) (a : A) → guarded m ≡ ok a → m ≡ ok a
unfolding guarded
guarded-eq-ok (ok b) a h = h
guarded-eq-ok (raise e) a h = cc

module _ {F : Type 0} (casts : Casts F) (cast : IsCasts casts) where
  created_at_lem :
      (created_at : ℕ) (r : VectorRecord F (Value F)) (m : List (Text × Value F))
      → created_at_of casts (base created_at r ++ m) ≡ ok created_at
  unfolding created_at_of lookup text_eqb
  created_at_lem created_at r m = cast.ints created_at

  resource_id_lem :
      (created_at : ℕ) (r : VectorRecord F (Value F)) (m : List (Text × Value F))
      → text_at casts (codes "resource_id") (base created_at r ++ m) ≡ r.resource_id
  unfolding text_at lookup text_eqb
  resource_id_lem created_at r m = cast.texts r.resource_id

  user_id_lem :
      (created_at : ℕ) (r : VectorRecord F (Value F)) (m : List (Text × Value F))
      → text_at casts (codes "user_id") (base created_at r ++ m) ≡ r.user_id
  unfolding text_at lookup text_eqb
  user_id_lem created_at r m = cast.texts r.user_id

  to_result_lem :
      (score : F) (created_at : ℕ) (r : VectorRecord F (Value F))
      → IsPlain (created_at, r)
      → to_result casts score (shown_of (to_row (created_at, r))) (to_row (created_at, r)).metadata
        ≡ ok (result_of score (created_at, r))
  unfolding to_result to_row get_or
  to_result_lem score created_at r plain =
      rw
        (
          metadata_lem created_at r plain,
          created_at_lem created_at r r.metadata,
          resource_id_lem created_at r r.metadata,
          user_id_lem created_at r r.metadata,
          keep_if-metadata created_at r plain,
        )
        refl

  pub to_results_lem :
      (score : F) (records : List (ℕ × VectorRecord F (Value F)))
      → All IsPlain records
      → to_results casts (λ shown. score) (map shown_of (map to_row records))
        ≡ ok (map (result_of score) records)
  unfolding to_results
  to_results_lem score [] h = refl
  to_results_lem score ((created_at, r) ∷ records) h =
      rw (to_result_lem score created_at r h.0, to_results_lem score records h.1) refl
