-- ===== src/Tests/Storing.antt =====
-- Witnesses for the vector stores: a Milvus of one row, and a collection that is the list of its rows.
use mkc.Prelude.{
  ℕ, zero, suc, ◌+◌, ◌-◌, ◌/◌, min, ltb, not, none, some, List, [], ◌∷◌, ◌++◌, ap, map, length,
  take, keep_if, ◌≡◌, refl, arith,
}
use mkc.Prelude.Text.{Text, codes, text_in, text_eqb}
use mathlib.Core.List.{Permᴰ}
use mathlib.Core.List.Permᴰ
use mkc.Exceptions.{Result, ok, raise, other}
use mkc.Models.{VectorRecord, VectorSearchResult}
use mkc.Retrieval.{get_or}
use mkc.Indexing.{Value, int_value, text_value}
use mkc.Prelude.Dict.{lookup, insert}
use mkc.Stores.{scope_of, one, many, StoreFilters, StoreConfig, Arith, selects}
use mkc.Stores.Milvus
use mkc.Stores.Milvus.{
  Entity, Hit, Row, Client, count_of, expr_or_none, as_store_error, retrying, entity_of,
  search_filter, resource_filter, with_retry,
}
use mkc.Stores.Milvus.Reads.{is_deleted, filters-Apart}
use mkc.Stores.Milvus.Calls.{IsRetried, results_of, rows_of, operations-IsRetried}
use mkc.Stores.Chroma
use mkc.Stores.Chroma.{
  Where, ChromaRow, Shown, Collection, Casts, to_row, guarded, to_results, to_result, created_at_of,
  text_at, resource_id_filter, user_clause, both_clauses, record_to_chroma_metadata, merge,
  is_reserved,
}
use mkc.Stores.Chroma.Plain.{IsPlain, matches, matches_if}
use mkc.Stores.Chroma.Holding.{
  IsCollection, IsCasts, Holds, AreNew, shown_of, id_of, is_target, is_selected,
}
use mkc.Stores.Chroma.Refines.{IsChosen, store-Refines}
use mkc.Tests.{value_of}

abbrev fl : Arith ℕ
fl = record {
  nought = 0;
  one = 1;
  less = ltb;
  plus = λ a b. a + b;
  minus = λ a b. a - b;
  over = λ a b. a / b;
}

abbrev filters : StoreFilters
filters = record {
  resource_ids = some (many (codes "it's" ∷ codes "b" ∷ []));
  resource_id = none;
  user_id = some (codes "o'neil");
}

abbrev others : StoreFilters
others = record {
  resource_ids = none;
  resource_id = some (many (codes "it's" ∷ codes "b" ∷ []));
  user_id = some (codes "o'neil");
}

-- What two filters with the same expression select, and what two deletions with the same one delete
abbrev AlikeFor : Text → Text → Type 0
AlikeFor resource_id user_id =
    (selects filters resource_id user_id ≡ selects others resource_id user_id)
    × (is_deleted (codes "it's") none resource_id user_id
        ≡ is_deleted (codes "it's") (some []) resource_id user_id)

filters-Apart_example : AlikeFor (codes "b") (codes "o'neil")
unfolding Milvus.search_filter Milvus.resource_filter scope_of
filters-Apart_example =
    filters-Apart filters others (codes "it's") (codes "it's") none (some []) refl refl (codes "b")
      (codes "o'neil")

abbrev entity : Entity ℕ
entity = record {
  resource_id = some (codes "it's");
  user_id = some (codes "o'neil");
  text = some (codes "text");
  metadata = none;
  created_at = none;
}

abbrev row : Row ℕ
row = record { id = some (codes "1"); entity = entity }

abbrev hit : Hit ℕ ℕ
hit = record { id = codes "1"; distance = 0; entity = some entity }

-- The first call of a search raises, and all deletions.
abbrev search_from : ℕ → Result (List (List (Hit ℕ ℕ)))
search_from zero = raise other
search_from (suc n) = ok ((hit ∷ []) ∷ [])

abbrev client : Client ℕ ℕ
client = record {
  upsert = λ rows attempt. ok none;
  delete = λ expr attempt. raise other;
  search = λ vector limit expr attempt. search_from attempt;
  query = λ expr limit attempt. ok (row ∷ []);
}

abbrev cfg : StoreConfig
cfg = record { metric_type = codes "COSINE"; max_retries = 3; dimensions = 1 }

abbrev upper : Text → Text
upper t = t

operations-IsRetried_example :
    let expr = expr_or_none (search_filter filters) in
    IsRetried
      (client.search (1 ∷ []) (min 500 100) expr)
      (3 - 1)
      (results_of fl upper cfg client)
      (Milvus.search fl upper cfg client (1 ∷ []) 500 filters)
    × IsRetried
        (client.query expr (min 500 100))
        (3 - 1)
        (rows_of fl upper cfg client)
        (Milvus.query fl upper cfg client filters 500)
    × IsRetried
        (client.delete (resource_filter (codes "it's") none))
        (3 - 1)
        (count_of fl upper cfg client)
        (Milvus.delete_by_resource fl upper cfg client (codes "it's") none)
operations-IsRetried_example =
    operations-IsRetried fl upper cfg client (1 ∷ []) 500 filters (codes "it's") none

abbrev rows : List (ChromaRow ℕ) → List (ChromaRow ℕ)
rows s = s

abbrev collection : Collection (List (ChromaRow ℕ)) ℕ
collection = record {
  upsert = λ added s. ok (added ++ s);
  delete = λ w s. ok (keep_if (λ (r : ChromaRow ℕ). not (matches w r.metadata)) s);
  count = λ s. length s;
  query = λ vector n w s. ok [];
  get = λ w n s.
      ok (map shown_of (take n (keep_if (λ (r : ChromaRow ℕ). matches_if w r.metadata) s)));
}

split :
    {A : Type 0} (n : ℕ) (xs : List A)
    → (ys : List A) × (others : List A) × Permᴰ (ys ++ others) xs
      × (length ys ≡ min n (length xs))
      × (ys ≡ take n xs)
split zero xs = ([], xs, Permᴰ.refl xs, omega arith, refl)
split (suc n) [] = ([], [], Permᴰ.refl [], omega arith, refl)
split (suc n) (x ∷ xs) =
    let (ys, others, perm, size, same) = split n xs in
    (x ∷ ys, others, Permᴰ.cons refl perm, omega (arith, size), ap (◌∷◌ x) same)

collection-IsCollection : IsCollection collection rows
collection-IsCollection = record {
  upserts = λ added s after h fresh.
      let same : added ++ s ≡ after = ground (arith, h) in rw (← same) (Permᴰ.refl _);
  deletes = λ w s after h.
      let same : keep_if (λ (r : ChromaRow ℕ). not (matches w r.metadata)) s ≡ after =
        ground (arith, h) in
      rw (← same) (Permᴰ.refl _);
  counts = λ s. refl;
  gets = λ w n s found h.
      let (ys, others, perm, size, same) =
        split n (keep_if (λ (r : ChromaRow ℕ). matches_if w r.metadata) s) in
      (ys, others, perm, size, ground (arith, h, ap (map shown_of) same));
}

abbrev to_text : Value ℕ → Text
to_text (text_value t) = t
to_text _ = []

abbrev to_int : Value ℕ → Result ℕ
to_int (int_value n) = ok n
to_int _ = raise other

abbrev casts : Casts ℕ
casts = record { to_text = to_text; to_int = to_int }

casts-IsCasts : IsCasts casts
casts-IsCasts = record { texts = λ t. refl; ints = λ n. refl }

abbrev entry : Text → Text → ℕ × VectorRecord ℕ (Value ℕ)
entry id resource_id = (
  5,
  record {
    id = id;
    resource_id = resource_id;
    user_id = codes "u";
    text = codes "text";
    vector = 1 ∷ [];
    metadata = (codes "page", int_value 2) ∷ [];
  },
)

abbrev records : List (ℕ × VectorRecord ℕ (Value ℕ))
records = entry (codes "1") (codes "a") ∷ entry (codes "2") (codes "b") ∷ []

abbrev added : List (ℕ × VectorRecord ℕ (Value ℕ))
added = entry (codes "3") (codes "c") ∷ entry (codes "4") (codes "c") ∷ []

abbrev scope : StoreFilters
scope = record { resource_ids = none; resource_id = some (one (codes "b")); user_id = none }

abbrev written : ℕ × List (ChromaRow ℕ)
written = value_of (Chroma.upsert fl casts collection added (map to_row records)) (0, [])

abbrev left : ℕ × List (ChromaRow ℕ)
left =
    value_of (Chroma.delete_by_resource fl casts collection (codes "b") none (map to_row records))
      (0, [])

abbrev out : List (VectorSearchResult ℕ (Value ℕ))
out = value_of (Chroma.query fl casts collection scope 10 (map to_row records)) []

entry-IsPlain : (id resource_id : Text) → IsPlain (entry id resource_id)
unfolding text_in text_eqb
entry-IsPlain id resource_id = (refl, tt)

added-AreNew : AreNew id_of added records
unfolding text_eqb
added-AreNew = (((refl, tt), (tt, tt)), ((refl, (refl, tt)), ((refl, (refl, tt)), tt)))

store-Refines_example :
    let kept = keep_if (λ x. not (is_target (codes "b") none x)) records in
    (Holds rows written.1 (added ++ records) × (written.0 ≡ length added))
    × (Holds rows left.1 kept × (left.0 + length kept ≡ length records))
    × IsChosen fl.nought 10 (keep_if (is_selected scope) records) out
unfolding Chroma.upsert Chroma.delete_by_resource Chroma.query guarded to_results to_result
    created_at_of text_at lookup text_eqb text_in keep_if to_row Chroma.search_filter
    resource_id_filter user_clause both_clauses scope_of record_to_chroma_metadata merge insert
    is_reserved get_or
store-Refines_example =
    store-Refines fl casts collection rows (map to_row records) written.1 left.1 records added
      written.0 left.0 (codes "b") none scope 10 out collection-IsCollection casts-IsCasts
      (
        Permᴰ.refl _,
        (entry-IsPlain (codes "1") (codes "a"), (entry-IsPlain (codes "2") (codes "b"), tt)),
      )
      (entry-IsPlain (codes "3") (codes "c"), (entry-IsPlain (codes "4") (codes "c"), tt))
      added-AreNew refl refl refl
