-- ===== src/Prelude/Order.antt =====
-- Scores (the source's floats) behind an interface, and `sorted(..., reverse=True)` over them.
use mathlib.Core.List.{Perm}
use mathlib.Core.List.Perm
use Prim.Native.Nat.{ℕ, zero, suc}
use mathlib.Core.Path.{◌≡◌}
use mathlib.Core.Logic.{◌⊎◌, inl, inr}
use mathlib.Core.Bool.{Bool, true}
use mathlib.Core.List.{List, [], ◌∷◌}
use mkc.Prelude.Tests.{if◌then◌else◌, Bool-cases}
use mkc.Prelude.Lists.{All, All-imp, All-take, All-keep_if, take, keep_if}

-- The operations on floats that the services use: `0.0`, `a + b`, `a / n` and `a <= b`.
pub record Float (F : Type 0) : Type 0 where
  pub nought : F
  pub add : F → F → F
  pub over : F → ℕ → F
  pub le : F → F → Bool

-- What IEEE 754 documents of `<=` on numbers that are not NaN.
pub record IsOrdered {F : Type 0} (fl : Float F) : Type 0 where
  pub total : (a b : F) → (fl.le a b ≡ true) ⊎ (fl.le b a ≡ true)
  pub le_trans : (a b c : F) → fl.le a b ≡ true → fl.le b c ≡ true → fl.le a c ≡ true

module _ {F : Type 0} (fl : Float F) {A : Type 0} (key : A → F) where
  -- An element goes in front of those whose key is not larger, so equal keys keep their order.
  unfoldable pub insert_desc : A → List A → List A
  insert_desc x [] = x ∷ []
  insert_desc x (y ∷ ys) = if fl.le (key y) (key x) then x ∷ y ∷ ys else y ∷ insert_desc x ys

  unfoldable pub sort_desc : List A → List A
  unfolding insert_desc
  sort_desc [] = []
  sort_desc (x ∷ xs) = insert_desc x (sort_desc xs)

  -- Each key is at least every later one.
  abbrev pub Desc : List A → Type 0
  Desc [] = Unit
  Desc (x ∷ xs) = All (λ y. fl.le (key y) (key x) ≡ true) xs × Desc xs

  insert_desc-perm : (x : A) (ys : List A) → Perm (insert_desc x ys) (x ∷ ys)
  unfolding insert_desc
  insert_desc-perm x [] = Perm.refl _
  insert_desc-perm x (y ∷ ys) = elim (Bool-cases (fl.le (key y) (key x))) [
    | inl e ↦ rw e (Perm.refl _)
    | inr e ↦ rw e (Perm.trans (Perm.cons y (insert_desc-perm x ys)) (Perm.swap x y ys))
  ]

  pub sort_desc-perm : (xs : List A) → Perm (sort_desc xs) xs
  unfolding sort_desc
  sort_desc-perm [] = Perm.refl _
  sort_desc-perm (x ∷ xs) =
      Perm.trans (insert_desc-perm x (sort_desc xs)) (Perm.cons x (sort_desc-perm xs))

  pub Desc-take : (n : ℕ) (xs : List A) → Desc xs → Desc (take n xs)
  Desc-take zero xs h = tt
  Desc-take (suc n) [] h = tt
  Desc-take (suc n) (x ∷ xs) h = (All-take _ n xs h.0, Desc-take n xs h.1)

  pub Desc-keep_if : (p : A → Bool) (xs : List A) → Desc xs → Desc (keep_if p xs)
  unfolding keep_if
  Desc-keep_if p [] h = tt
  Desc-keep_if p (x ∷ xs) h = elim (Bool-cases (p x)) [
    | inl e ↦ rw e (All-keep_if _ p xs h.0, Desc-keep_if p xs h.1)
    | inr e ↦ rw e (Desc-keep_if p xs h.1)
  ]

  module _ (P : A → Type 0) where
    insert_desc-All_of : (x : A) (ys : List A) → P x → All P ys → All P (insert_desc x ys)
    unfolding insert_desc
    insert_desc-All_of x [] h hs = (h, tt)
    insert_desc-All_of x (y ∷ ys) h hs = elim (Bool-cases (fl.le (key y) (key x))) [
      | inl e ↦ rw e (h, hs)
      | inr e ↦ rw e (hs.0, insert_desc-All_of x ys h hs.1)
    ]

    -- sorting brings in no element
    pub All-sort_desc : (xs : List A) → All P xs → All P (sort_desc xs)
    unfolding sort_desc
    All-sort_desc [] h = tt
    All-sort_desc (x ∷ xs) h = insert_desc-All_of x (sort_desc xs) h.0 (All-sort_desc xs h.1)

  module _ (o : IsOrdered fl) where
    insert_desc-All :
        (b : F) (x : A) (ys : List A)
        → fl.le (key x) b ≡ true
        → All (λ y. fl.le (key y) b ≡ true) ys
        → All (λ y. fl.le (key y) b ≡ true) (insert_desc x ys)
    unfolding insert_desc
    insert_desc-All b x [] h hs = (h, tt)
    insert_desc-All b x (y ∷ ys) h hs = elim (Bool-cases (fl.le (key y) (key x))) [
      | inl e ↦ rw e (h, hs)
      | inr e ↦ rw e (hs.0, insert_desc-All b x ys h hs.1)
    ]

    insert_desc-Desc : (x : A) (ys : List A) → Desc ys → Desc (insert_desc x ys)
    unfolding insert_desc
    insert_desc-Desc x [] h = (tt, tt)
    insert_desc-Desc x (y ∷ ys) h = elim (o.total (key y) (key x)) [
      | inl e ↦ rw e ((e, All-imp (λ z p. o.le_trans (key z) (key y) (key x) p e) ys h.0), h)
      | inr e ↦ elim (Bool-cases (fl.le (key y) (key x))) [
        | inl d ↦ rw d ((d, All-imp (λ z p. o.le_trans (key z) (key y) (key x) p d) ys h.0), h)
        | inr d ↦ rw d (insert_desc-All (key y) x ys e h.0, insert_desc-Desc x ys h.1)
      ]
    ]

    pub sort_desc-Desc : (xs : List A) → Desc (sort_desc xs)
    unfolding sort_desc
    sort_desc-Desc [] = tt
    sort_desc-Desc (x ∷ xs) = insert_desc-Desc x (sort_desc xs) (sort_desc-Desc xs)
