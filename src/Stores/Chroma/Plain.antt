-- ===== src/Stores/Chroma/Plain.antt =====
-- The metadata of a row, where a record brings none of the entries that the store adds; and what a
-- condition says of such a row.
use mathlib.Core.List.{append_assoc, append-nil}
use mkc.Prelude.{
  ℕ, Bool, true, false, ◌&&◌, ◌||◌, not, Option, none, some, List, [], ◌∷◌, ◌++◌, keep_if, ◌≡◌,
  refl, ap, sym, ◌∙◌, arith, Bool-cases, inl, inr,
}
use mkc.Prelude.Text.{Text, text_eqb, text_in}
use mkc.Prelude.Dict.{keys, lookup, insert}
use mkc.Models.{VectorRecord}
use mkc.Indexing.{Value, text_value, int_value, float_value}
use mkc.Stores.{Scope, one, many, StoreFilters, scope_of, in_scope, of_user, selects}
use mkc.Stores.Chroma.{
  Clause, equals, any_of, Where, only, all_of, resource_id_filter, user_clause, both_clauses,
  search_filter, resource_filter, merge, base, record_to_chroma_metadata, is_reserved,
}

-- The keys of `m` are none of those of `d`, and no two are the same.
abbrev pub Fresh : {V : Type 0} → List (Text × V) → List (Text × V) → Type 0
Fresh d [] = Unit
Fresh d ((k, v) ∷ m) = (text_in k (keys d) ≡ false) × Fresh (d ++ ((k, v) ∷ [])) m

-- A record that brings no entry which the store adds
abbrev pub IsPlain : {F : Type 0} → ℕ × VectorRecord F (Value F) → Type 0
IsPlain (created_at, r) = Fresh (base created_at r) r.metadata

insert-fresh :
    {V : Type 0} (k : Text) (v : V) (d : List (Text × V))
    → text_in k (keys d) ≡ false
    → insert k v d ≡ d ++ ((k, v) ∷ [])
unfolding insert text_in
insert-fresh k v [] h = refl
insert-fresh k v ((j, w) ∷ d) h = elim (Bool-cases (text_eqb k j)) [
  | inl e ↦ absurd (ground (arith, h, e))
  | inr e ↦ rw e (ap (◌∷◌ (j, w)) (insert-fresh k v d (ground (arith, h, e))))
]

merge-append : {V : Type 0} (d m : List (Text × V)) → Fresh d m → merge d m ≡ d ++ m
unfolding merge
merge-append d [] h = sym (append-nil d)
merge-append d ((k, v) ∷ m) h =
    ap (λ d'. merge d' m) (insert-fresh k v d h.0)
    ∙ merge-append (d ++ ((k, v) ∷ [])) m h.1
    ∙ append_assoc d ((k, v) ∷ []) m

text_in_before :
    {V : Type 0} (k : Text) (d e : List (Text × V))
    → text_in k (keys (d ++ e)) ≡ false
    → text_in k (keys d) ≡ false
unfolding text_in
text_in_before k [] e h = refl
text_in_before k ((j, w) ∷ d) e h = ground (arith, text_in_before k d e)

-- what holds of keys that `d` has not holds of the keys of `m`
keep_if-Fresh :
    {V : Type 0} (p : Text → Bool) (d m : List (Text × V))
    → ((k : Text) → text_in k (keys d) ≡ false → p k ≡ true)
    → Fresh d m
    → keep_if (λ entry. p entry.0) m ≡ m
unfolding keep_if
keep_if-Fresh p d [] h f = refl
keep_if-Fresh p d ((k, v) ∷ m) h f = rw (h k f.0) (
    ap (◌∷◌ (k, v)) (
      keep_if-Fresh p (d ++ ((k, v) ∷ [])) m (λ j out. h j (text_in_before j d ((k, v) ∷ []) out))
        f.1))

pub metadata_lem :
    {F : Type 0} (created_at : ℕ) (r : VectorRecord F (Value F))
    → IsPlain (created_at, r)
    → record_to_chroma_metadata created_at r ≡ base created_at r ++ r.metadata
unfolding record_to_chroma_metadata
metadata_lem created_at r plain = merge-append (base created_at r) r.metadata plain

pub keep_if-metadata :
    {F : Type 0} (created_at : ℕ) (r : VectorRecord F (Value F))
    → IsPlain (created_at, r)
    → keep_if (λ entry. not (is_reserved entry.0)) (base created_at r ++ r.metadata) ≡ r.metadata
unfolding is_reserved keep_if text_in text_eqb
keep_if-metadata created_at r plain =
    keep_if-Fresh (λ k. not (is_reserved k)) (base created_at r) r.metadata (λ k out. rw out refl)
      plain

-- What Chroma documents of a `where`
abbrev pub is_value : {F : Type 0} → Option (Value F) → Text → Bool
is_value none t = false
is_value (some (text_value s)) t = text_eqb s t
is_value (some (int_value n)) t = false
is_value (some (float_value x)) t = false

abbrev pub is_any : {F : Type 0} → Option (Value F) → List Text → Bool
is_any value [] = false
is_any value (t ∷ ts) = is_value value t || is_any value ts

abbrev pub meets : {F : Type 0} → Clause → List (Text × Value F) → Bool
meets (equals key t) metadata = is_value (lookup key metadata) t
meets (any_of key ts) metadata = is_any (lookup key metadata) ts

abbrev pub meets_all : {F : Type 0} → List Clause → List (Text × Value F) → Bool
meets_all [] metadata = true
meets_all (c ∷ cs) metadata = meets c metadata && meets_all cs metadata

abbrev pub matches : {F : Type 0} → Where → List (Text × Value F) → Bool
matches (only c) metadata = meets c metadata
matches (all_of cs) metadata = meets_all cs metadata

-- No `where` is met by every row.
abbrev pub matches_if : {F : Type 0} → Option Where → List (Text × Value F) → Bool
matches_if none metadata = true
matches_if (some w) metadata = matches w metadata

is_any-text :
    (F : Type 0) (s : Text) (ts : List Text)
    → is_any {F = F} (some (text_value s)) ts ≡ text_in s ts
unfolding text_in
is_any-text F s [] = refl
is_any-text F s (t ∷ ts) = ap (λ b. text_eqb s t || b) (is_any-text F s ts)

text_in_single : (s t : Text) → text_eqb s t ≡ text_in s (t ∷ [])
unfolding text_in
text_in_single s t = ground arith

module _ {F : Type 0} (created_at : ℕ) (r : VectorRecord F (Value F))
    (m : List (Text × Value F)) where
  abbrev pub with_base : List (Text × Value F)
  with_base = base created_at r ++ m

  meets_scope : Option Clause → Bool
  meets_scope none = true
  meets_scope (some c) = meets c with_base

  both_clauses_lem :
      (c d : Option Clause)
      → matches_if (both_clauses c d) with_base ≡ (meets_scope c && meets_scope d)
  unfolding both_clauses meets_scope
  both_clauses_lem none none = refl
  both_clauses_lem none (some d) = refl
  both_clauses_lem (some c) none = ground arith
  both_clauses_lem (some c) (some d) = ground arith

  meets_scope-in_scope :
      (scope : Option Scope) → meets_scope (resource_id_filter scope) ≡ in_scope scope r.resource_id
  unfolding meets_scope resource_id_filter lookup text_eqb
  meets_scope-in_scope none = refl
  meets_scope-in_scope (some (one x)) = refl
  meets_scope-in_scope (some (many [])) = refl
  meets_scope-in_scope (some (many (x ∷ []))) = text_in_single r.resource_id x
  meets_scope-in_scope (some (many (x ∷ y ∷ ids))) = is_any-text F r.resource_id (x ∷ y ∷ ids)

  meets_scope-of_user :
      (user_id : Option Text) → meets_scope (user_clause user_id) ≡ of_user user_id r.user_id
  unfolding meets_scope user_clause lookup text_eqb
  meets_scope-of_user none = refl
  meets_scope-of_user (some u) = refl

  -- the `where` of a search is met by the rows of just the records that the filters select
  pub search_filter-selects :
      (filters : StoreFilters)
      → matches_if (search_filter filters) with_base ≡ selects filters r.resource_id r.user_id
  unfolding search_filter
  search_filter-selects filters =
      both_clauses_lem (resource_id_filter (scope_of filters)) (user_clause filters.user_id)
      ∙ rw (meets_scope-in_scope (scope_of filters), meets_scope-of_user filters.user_id) refl

  pub resource_filter-selects :
      (resource_id : Text) (user_id : Option Text)
      → matches (resource_filter resource_id user_id) with_base
        ≡ (text_eqb r.resource_id resource_id && of_user user_id r.user_id)
  unfolding resource_filter lookup text_eqb
  resource_filter-selects resource_id none = ground arith
  resource_filter-selects resource_id (some u) = ground arith
