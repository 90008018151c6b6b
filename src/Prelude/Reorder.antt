-- ===== src/Prelude/Reorder.antt =====
-- Lists in another order: what tests, maps and predicates say of them.
use mathlib.Core.List.{Permᴰ}
use mathlib.Core.List.Permᴰ
use Prim.Native.Nat.{suc}
use mathlib.Core.Path.{◌≡◌, refl, ap, ◌∙◌}
use mathlib.Core.Logic.{inl, inr}
use mathlib.Core.Bool.{Bool}
use mathlib.Core.List.{List, [], ◌∷◌, ◌++◌, map}
use native.Mathlib.Omega.{arith}
use mkc.Prelude.Tests.{Bool-cases}
use mkc.Prelude.Lists.{All, keep_if, length}

module _ {A : Type 0} where
  pub keep_if-ext :
      (p q : A → Bool) (xs : List A) → All (λ x. p x ≡ q x) xs → keep_if p xs ≡ keep_if q xs
  unfolding keep_if
  keep_if-ext p q [] h = refl
  keep_if-ext p q (x ∷ xs) h = elim (Bool-cases (q x)) [
    | inl e ↦ rw (h.0, e) (ap (◌∷◌ x) (keep_if-ext p q xs h.1))
    | inr e ↦ rw (h.0, e) (keep_if-ext p q xs h.1)
  ]

  keep_if-one :
      (p : A → Bool) (a b : A) (xs ys : List A)
      → a ≡ b
      → Permᴰ (keep_if p xs) (keep_if p ys)
      → Permᴰ (keep_if p (a ∷ xs)) (keep_if p (b ∷ ys))
  unfolding keep_if
  keep_if-one p a b xs ys same h = elim (Bool-cases (p b)) [
    | inl e ↦ rw (same, e) (Permᴰ.cons refl h)
    | inr e ↦ rw (same, e) h
  ]

  keep_if-two :
      (p : A → Bool) (a b : A) (xs : List A)
      → Permᴰ (keep_if p (a ∷ b ∷ xs)) (keep_if p (b ∷ a ∷ xs))
  unfolding keep_if
  keep_if-two p a b xs = elim (Bool-cases (p a)) [
    | inl e ↦ elim (Bool-cases (p b)) [
      | inl d ↦ rw (e, d) (Permᴰ.swap refl refl)
      | inr d ↦ rw (e, d) (Permᴰ.refl _)
    ]
    | inr e ↦ elim (Bool-cases (p b)) [
      | inl d ↦ rw (e, d) (Permᴰ.refl _)
      | inr d ↦ rw (e, d) (Permᴰ.refl _)
    ]
  ]

  pub Perm-keep_if :
      (p : A → Bool) (xs ys : List A) → Permᴰ xs ys → Permᴰ (keep_if p xs) (keep_if p ys)
  unfolding keep_if
  Perm-keep_if p [] [] Permᴰ.nil = Permᴰ.nil
  Perm-keep_if p (a ∷ xs) (b ∷ ys) (Permᴰ.cons same h) =
      keep_if-one p a b xs ys same (Perm-keep_if p xs ys h)
  Perm-keep_if p (a ∷ b ∷ xs) (c ∷ d ∷ _) (Permᴰ.swap e f) = rw (e, f) (keep_if-two p d c xs)
  Perm-keep_if p xs zs (Permᴰ.trans {l₂ = ys} h k) =
      Permᴰ.trans (Perm-keep_if p xs ys h) (Perm-keep_if p ys zs k)

  pub Perm-All : (P : A → Type 0) (xs ys : List A) → Permᴰ xs ys → All P xs → All P ys
  Perm-All P [] [] Permᴰ.nil all = tt
  Perm-All P (a ∷ xs) (b ∷ ys) (Permᴰ.cons same h) all =
      (rw (← same) all.0, Perm-All P xs ys h all.1)
  Perm-All P (a ∷ b ∷ xs) (c ∷ d ∷ _) (Permᴰ.swap e f) all =
      (rw (← f) all.1.0, (rw (← e) all.0, all.1.1))
  Perm-All P xs zs (Permᴰ.trans {l₂ = ys} h k) all = Perm-All P ys zs k (Perm-All P xs ys h all)

  pub Perm-length : (xs ys : List A) → Permᴰ xs ys → length xs ≡ length ys
  Perm-length [] [] Permᴰ.nil = refl
  Perm-length (a ∷ xs) (b ∷ ys) (Permᴰ.cons same h) = ap suc (Perm-length xs ys h)
  Perm-length (a ∷ b ∷ xs) (c ∷ d ∷ _) (Permᴰ.swap e f) = refl
  Perm-length xs zs (Permᴰ.trans {l₂ = ys} h k) = Perm-length xs ys h ∙ Perm-length ys zs k

module _ {A B : Type 0} (f : A → B) where
  pub keep_if-map :
      (p : B → Bool) (xs : List A) → keep_if p (map f xs) ≡ map f (keep_if (λ x. p (f x)) xs)
  unfolding keep_if
  keep_if-map p [] = refl
  keep_if-map p (x ∷ xs) = elim (Bool-cases (p (f x))) [
    | inl e ↦ rw e (ap (◌∷◌ (f x)) (keep_if-map p xs))
    | inr e ↦ rw e (keep_if-map p xs)
  ]

  -- what is the images of a list in another order is the images of that list in another order
  pub Perm-map :
      (rs ms : List B) (xs : List A)
      → Permᴰ rs ms
      → ms ≡ map f xs
      → (zs : List A) × (rs ≡ map f zs) × Permᴰ zs xs
  Perm-map [] [] [] Permᴰ.nil e = ([], refl, Permᴰ.nil)
  Perm-map [] [] (x ∷ xs) Permᴰ.nil e = absurd (ground (arith, e))
  Perm-map (a ∷ rs) (b ∷ ms) [] (Permᴰ.cons same h) e = absurd (ground (arith, e))
  Perm-map (a ∷ rs) (b ∷ ms) (x ∷ xs) (Permᴰ.cons same h) e =
      let (zs, image, perm) = Perm-map rs ms xs h cc in
      let head : a ≡ f x = cc in (x ∷ zs, rw (head, image) refl, Permᴰ.cons refl perm)
  Perm-map (a ∷ b ∷ rs) (c ∷ d ∷ _) [] (Permᴰ.swap p q) e = absurd (ground (arith, e))
  Perm-map (a ∷ b ∷ rs) (c ∷ d ∷ _) (x ∷ []) (Permᴰ.swap p q) e = absurd (ground (arith, e))
  Perm-map (a ∷ b ∷ rs) (c ∷ d ∷ _) (x ∷ y ∷ xs) (Permᴰ.swap p q) e =
      let first : a ≡ f y = cc in
      let second : b ≡ f x = cc in
      let rest : rs ≡ map f xs = cc in
      (y ∷ x ∷ xs, rw (first, second, rest) refl, Permᴰ.swap refl refl)
  Perm-map rs ms xs (Permᴰ.trans {l₂ = ls} h k) e =
      let (ys, image, perm) = Perm-map ls ms xs k e in
      let (zs, image', perm') = Perm-map rs ls ys h image in (zs, image', Permᴰ.trans perm' perm)

  -- the parts of a list of images are lists of images
  pub append-map :
      (us bs : List B) (zs : List A)
      → us ++ bs ≡ map f zs
      → (xs : List A) × (ys : List A) × (us ≡ map f xs) × (zs ≡ xs ++ ys)
  append-map [] bs zs e = ([], zs, refl, refl)
  append-map (a ∷ us) bs [] e = absurd (ground (arith, e))
  append-map (a ∷ us) bs (z ∷ zs) e =
      let (xs, ys, image, whole) = append-map us bs zs cc in
      let head : a ≡ f z = cc in (z ∷ xs, ys, rw (head, image) refl, ap (◌∷◌ z) whole)
