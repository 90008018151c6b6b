-- ===== src/Prelude/Distinct.antt =====
-- The first element of each key: what a loop with a set of the keys it has met keeps of a list.
use mathlib.Core.Path.{◌≡◌, refl, ap}
use mathlib.Core.Logic.{◌↔◌, inl, inr}
use mathlib.Core.Bool.{Bool, true, false, not, ◌||◌}
use mathlib.Core.List.{List, [], ◌∷◌}
use native.Mathlib.Omega.{arith}
use mkc.Prelude.Tests.{if◌then◌else◌, Bool-cases}
use mkc.Prelude.Lists.{keep_if}

module _ {ℓ} {A : Type ℓ} where
  -- a test that follows from another one leaves what that one keeps
  pub keep_if_imp :
      (p q : A → Bool)
      → ((x : A) → p x ≡ true → q x ≡ true)
      → (xs : List A) → keep_if p (keep_if q xs) ≡ keep_if p xs
  unfolding keep_if
  keep_if_imp p q h [] = refl
  keep_if_imp p q h (x ∷ xs) = ground (arith, h x, keep_if_imp p q h xs)

  pub keep_if-keep_if :
      (p q r : A → Bool)
      → ((x : A) → r x ≡ (if q x then p x else false))
      → (xs : List A) → keep_if p (keep_if q xs) ≡ keep_if r xs
  unfolding keep_if
  keep_if-keep_if p q r h [] = refl
  keep_if-keep_if p q r h (x ∷ xs) = ground (arith, h x, keep_if-keep_if p q r h xs)

module _ {κ} {K : Type κ} (eqb : K → K → Bool) where
  -- `k in seen`
  unfoldable pub member : K → List K → Bool
  member k [] = false
  member k (j ∷ js) = eqb k j || member k js

module _ {ℓ κ} {A : Type ℓ} {K : Type κ} (eqb : K → K → Bool) (key : A → K) where
  -- Each element whose key no earlier one has
  unfoldable pub nub : List A → List A
  nub [] = []
  nub (x ∷ xs) = x ∷ keep_if (λ y. not (eqb (key y) (key x))) (nub xs)

  abbrev pub unseen : List K → A → Bool
  unseen seen x = not (member eqb (key x) seen)

  pub unseen-nil : (xs : List A) → keep_if (unseen []) xs ≡ xs
  unfolding keep_if member
  unseen-nil [] = refl
  unseen-nil (x ∷ xs) = ap (◌∷◌ x) (unseen-nil xs)

  module _ (eqb_iff : (j k : K) → (eqb j k ≡ true) ↔ (j ≡ k)) where
    member_imp :
        (seen : List K) (j k : K)
        → member eqb j seen ≡ true
        → member eqb k seen ≡ false
        → eqb k j ≡ false
    member_imp seen j k h n = elim (Bool-cases (eqb k j)) [
      | inl e ↦
          ground (arith, (eqb_iff k j).0 e, ap (λ i. member eqb i seen) ((eqb_iff k j).0 e), h, n)
      | inr e ↦ e
    ]

    -- an element whose key was met is left out
    pub unseen-met :
        (seen : List K) (x : A) (xs : List A)
        → member eqb (key x) seen ≡ true
        → keep_if (unseen seen) (nub (x ∷ xs)) ≡ keep_if (unseen seen) (nub xs)
    unfolding nub keep_if
    unseen-met seen x xs h = rw (h) (
        keep_if_imp (unseen seen) (λ y. not (eqb (key y) (key x)))
          (λ y fresh. ground (arith, member_imp seen (key x) (key y) h)) (nub xs))

    pub unseen-new :
        (seen : List K) (x : A) (xs : List A)
        → member eqb (key x) seen ≡ false
        → keep_if (unseen seen) (nub (x ∷ xs)) ≡ x ∷ keep_if (unseen (key x ∷ seen)) (nub xs)
    unfolding nub keep_if member
    unseen-new seen x xs h = rw h (
        ap (◌∷◌ x) (
          keep_if-keep_if (unseen seen) (λ y. not (eqb (key y) (key x))) (unseen (key x ∷ seen))
            (λ y. ground arith) (nub xs)))
