-- ===== src/Ocr/Images.antt =====
-- How many images are there while the pages of a document are recognized.
use mkc.Prelude.{ℕ, suc, ◌-◌, ◌≤◌, List, [], ◌∷◌, ◌++◌, ◌≡◌, refl, ap, sym, ◌∙◌, subst}
use mkc.Ocr.{Action, rendered, progressed, unlinked}

-- No more than `limit` images are there at any time, of which there are `count` before.
abbrev pub Bounded : ℕ → ℕ → List Action → Type 0
Bounded limit count [] = Unit
Bounded limit count (rendered n ∷ actions) = (suc count ≤ limit) × Bounded limit (suc count) actions
Bounded limit count (progressed n ∷ actions) = Bounded limit count actions
Bounded limit count (unlinked n ∷ actions) = Bounded limit (count - 1) actions

-- The images that are there after some actions
abbrev pub left : ℕ → List Action → ℕ
left count [] = count
left count (rendered n ∷ actions) = left (suc count) actions
left count (progressed n ∷ actions) = left count actions
left count (unlinked n ∷ actions) = left (count - 1) actions

Bounded-append :
    (limit count : ℕ) (xs ys : List Action)
    → Bounded limit count xs
    → Bounded limit (left count xs) ys
    → Bounded limit count (xs ++ ys)
Bounded-append limit count [] ys h k = k
Bounded-append limit count (rendered n ∷ xs) ys (l, h) k =
    (l, Bounded-append limit (suc count) xs ys h k)
Bounded-append limit count (progressed n ∷ xs) ys h k = Bounded-append limit count xs ys h k
Bounded-append limit count (unlinked n ∷ xs) ys h k = Bounded-append limit (count - 1) xs ys h k

left-append : (count : ℕ) (xs ys : List Action) → left count (xs ++ ys) ≡ left (left count xs) ys
left-append count [] ys = refl
left-append count (rendered n ∷ xs) ys = left-append (suc count) xs ys
left-append count (progressed n ∷ xs) ys = left-append count xs ys
left-append count (unlinked n ∷ xs) ys = left-append (count - 1) xs ys

-- The images are within the limit all the time, and `count` of them are left.
abbrev pub At : ℕ → ℕ → List Action → Type 0
At limit count log = Bounded limit 0 log × (left 0 log ≡ count)

pub At-append :
    (limit count stop : ℕ) (log more : List Action)
    → At limit count log
    → Bounded limit count more
    → left count more ≡ stop
    → At limit stop (log ++ more)
At-append limit count stop log more (bounded, there) h k = (
  Bounded-append limit 0 log more bounded (subst (λ n. Bounded limit n more) (sym there) h),
  left-append 0 log more ∙ ap (λ n. left n more) there ∙ k,
)
