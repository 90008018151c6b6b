-- ===== src/Prelude/Dict.antt =====
-- Python's `dict` with texts as keys, in insertion order.
use mathlib.Core.Path.{◌≡◌, refl}
use mathlib.Core.Logic.{inl, inr}
use mathlib.Core.Bool.{true}
use mathlib.Core.Option.{Option, none, some}
use mathlib.Core.List.{List, [], ◌∷◌}
use native.Mathlib.Omega.{arith}
use mkc.Prelude.Tests.{if◌then◌else◌, Bool-cases}
use mkc.Prelude.Lists.{All, All-imp}
use mkc.Prelude.Text.{Text, text_eqb, text_eqb_iff, text_eqb_refl, text_in}

-- where a new key goes
abbrev pub add_key : Text → List Text → List Text
add_key k [] = k ∷ []
add_key k (j ∷ js) = if text_eqb k j then j ∷ js else j ∷ add_key k js

module _ {V : Type 0} where
  abbrev pub keys : List (Text × V) → List Text
  keys [] = []
  keys ((k, v) ∷ d) = k ∷ keys d

  -- `d.get(k)`
  unfoldable pub lookup : Text → List (Text × V) → Option V
  lookup k [] = none
  lookup k ((j, v) ∷ d) = if text_eqb k j then some v else lookup k d

  -- `d[k] = v`: a key that is there keeps its place.
  unfoldable pub insert : Text → V → List (Text × V) → List (Text × V)
  insert k v [] = (k, v) ∷ []
  insert k v ((j, w) ∷ d) = if text_eqb k j then (j, v) ∷ d else (j, w) ∷ insert k v d

  -- `d.setdefault(k, v)`
  unfoldable pub set_default : Text → V → List (Text × V) → List (Text × V)
  set_default k v [] = (k, v) ∷ []
  set_default k v ((j, w) ∷ d) = if text_eqb k j then (j, w) ∷ d else (j, w) ∷ set_default k v d

  -- `del d[k]`, where a key stands once
  unfoldable pub erase : Text → List (Text × V) → List (Text × V)
  erase k [] = []
  erase k ((j, v) ∷ d) = if text_eqb k j then d else (j, v) ∷ erase k d

  pub lookup-insert :
      (k j : Text) (v : V) (d : List (Text × V))
      → lookup j (insert k v d) ≡ (if text_eqb j k then some v else lookup j d)
  unfolding lookup insert
  lookup-insert k j v [] = refl
  lookup-insert k j v ((i, w) ∷ d) =
      ground (arith, text_eqb_iff k i, text_eqb_iff j i, text_eqb_iff j k, lookup-insert k j v d)

  pub lookup-set_default :
      (k j : Text) (v : V) (d : List (Text × V))
      → lookup j (set_default k v d) ≡ elim (lookup j d) as (λ _. Option V) [
        | none ↦ if text_eqb j k then some v else none
        | some w ↦ some w
      ]
  unfolding lookup set_default
  lookup-set_default k j v [] = refl
  lookup-set_default k j v ((i, w) ∷ d) =
      ground
        (arith, text_eqb_iff k i, text_eqb_iff j i, text_eqb_iff j k, lookup-set_default k j v d)

  pub keys-insert :
      (k : Text) (v : V) (d : List (Text × V)) → keys (insert k v d) ≡ add_key k (keys d)
  unfolding insert
  keys-insert k v [] = refl
  keys-insert k v ((j, w) ∷ d) = ground (arith, keys-insert k v d)

  pub keys-set_default :
      (k : Text) (v : V) (d : List (Text × V)) → keys (set_default k v d) ≡ add_key k (keys d)
  unfolding set_default
  keys-set_default k v [] = refl
  keys-set_default k v ((j, w) ∷ d) = ground (arith, keys-set_default k v d)

  pub lookup_of_key :
      (k : Text) (d : List (Text × V)) → text_in k (keys d) ≡ true → (v : V) × (lookup k d ≡ some v)
  unfolding lookup text_in
  lookup_of_key k [] h = absurd (ground arith)
  lookup_of_key k ((j, v) ∷ d) h = elim (Bool-cases (text_eqb k j)) [
    | inl e ↦ (v, rw e)
    | inr e ↦ let (w, found) = lookup_of_key k d (ground (arith, h)) in (w, rw e found)
  ]

  -- No key stands twice.
  abbrev pub DistinctKeys : List (Text × V) → Type 0
  DistinctKeys [] = Unit
  DistinctKeys ((k, v) ∷ d) = (lookup k d ≡ none) × DistinctKeys d

  pub insert-DistinctKeys :
      (k : Text) (v : V) (d : List (Text × V)) → DistinctKeys d → DistinctKeys (insert k v d)
  unfolding insert lookup
  insert-DistinctKeys k v [] h = (refl, tt)
  insert-DistinctKeys k v ((j, w) ∷ d) (fresh, h) = ground (
    arith,
    insert-DistinctKeys k v d h,
    lookup-insert k j v d,
    text_eqb_iff j k,
    text_eqb_iff k j,
  )

  -- each entry is found by its key
  pub DistinctKeys-lookup :
      (d : List (Text × V)) → DistinctKeys d → All (λ item. lookup item.0 d ≡ some item.1) d
  unfolding lookup
  DistinctKeys-lookup [] h = tt
  DistinctKeys-lookup ((k, v) ∷ d) (fresh, h) = (
    rw (text_eqb_refl k),
    All-imp (λ item found. ground (arith, found, fresh, text_eqb_iff item.0 k)) d
        (DistinctKeys-lookup d h),
  )
