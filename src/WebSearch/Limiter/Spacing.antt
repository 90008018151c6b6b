-- ===== src/WebSearch/Limiter/Spacing.antt =====
-- How many calls the limiter lets through.
use mathlib.Core.List.{reverse, reverse-append, append_assoc}
use mkc.Prelude.{
  ℕ, zero, suc, ◌+◌, ◌-◌, ◌≤◌, some, List, [], ◌∷◌, ◌++◌, length, length-append, get_elem?, leb,
  All, All-imp, All-append, ◌≡◌, refl, ap, sym, ◌∙◌, subst, arith, Bool-cases, inl, inr,
}
use mkc.Exceptions.{Result, ok, raise, other}
use mkc.Chunking.{ℤ, pos}
use mkc.WebSearch.Limiter.{expire, acquire_within, acquire}

-- The times at which calls went through, the last one first, added to `before`
abbrev pub through : Result {0} Unit → ℕ → List ℕ → List ℕ
through (ok _) now before = now ∷ before
through (raise e) now before = before

abbrev pub granted : ℤ → ℕ → List ℕ → List ℕ → List ℕ → List ℕ
granted limit window [] calls before = before
granted limit window (now ∷ times) calls before =
    let (outcome, kept) = acquire limit window now calls in
    granted limit window times kept (through outcome now before)

-- The readings of a clock that does not go back, from `now` on
abbrev pub Ascending : ℕ → List ℕ → Type 0
Ascending now [] = Unit
Ascending now (t ∷ times) = (now ≤ t) × Ascending t times

-- Each call is at least a window behind the one that went through `limit` calls before it.
abbrev pub Spaced : ℕ → ℕ → List ℕ → Type 0
Spaced limit window [] = Unit
Spaced limit window (now ∷ before) =
    ((earlier : ℕ) → get_elem? (now ∷ before) limit ≡ some earlier → earlier + window ≤ now)
    × Spaced limit window before

-- The calls that are kept are the last ones, and those before them are a window old.
abbrev Holds : ℕ → ℕ → ℕ → List ℕ → List ℕ → Type 0
Holds limit window now calls before =
    (old : List ℕ) × (before ≡ reverse calls ++ old)
    × All (λ t. t + window ≤ now) old
    × All (λ t. t ≤ now) calls
    × Spaced limit window before

expire-old :
    (window now : ℕ) (calls : List ℕ)
    → All (λ t. t ≤ now) calls
    → (gone : List ℕ) × (calls ≡ gone ++ expire window now calls)
      × All (λ t. t + window ≤ now) gone
      × All (λ t. t ≤ now) (expire window now calls)
unfolding expire
expire-old window now [] h = ([], refl, tt, tt)
expire-old window now (call ∷ calls) (h, hs) = elim (Bool-cases (leb window (now - call))) [
  | inl e ↦
      let (gone, same, old, young) = expire-old window now calls hs in
      rw e (call ∷ gone, ap (◌∷◌ call) same, (ground arith, old), young)
  | inr e ↦ rw e ([], refl, tt, (h, hs))
]

get_elem?-append :
    (P : ℕ → Type 0) (xs ys : List ℕ) (i : ℕ) (y : ℕ)
    → length xs ≤ i
    → get_elem? (xs ++ ys) i ≡ some y
    → All P ys
    → P y
get_elem?-append P [] [] i y h e p = absurd (ground (arith, e))
get_elem?-append P [] (x ∷ ys) zero y h e p = subst P (cc) p.0
get_elem?-append P [] (x ∷ ys) (suc i) y h e p = get_elem?-append P [] ys i y (omega arith) e p.1
get_elem?-append P (x ∷ xs) ys zero y h e p = absurd (omega arith)
get_elem?-append P (x ∷ xs) ys (suc i) y h e p = get_elem?-append P xs ys i y (omega arith) e p

reverse-cons : (x : ℕ) (xs : List ℕ) → reverse (x ∷ xs) ≡ reverse xs ++ (x ∷ [])
reverse-cons x xs = reverse-append (x ∷ []) xs

length-reverse : (xs : List ℕ) → length (reverse xs) ≡ length xs
length-reverse [] = refl
length-reverse (x ∷ xs) =
    ap length (reverse-cons x xs)
    ∙ omega (arith, length-append (reverse xs) (x ∷ []), length-reverse xs)

All-reverse : (P : ℕ → Type 0) (xs : List ℕ) → All P xs → All P (reverse xs)
All-reverse P [] h = tt
All-reverse P (x ∷ xs) (h, hs) =
    subst (All P) (sym (reverse-cons x xs))
      (All-append P (reverse xs) (x ∷ []) (All-reverse P xs hs) (h, tt))

-- the calls that are a window old are removed
expire-Holds :
    (limit window now t : ℕ) (calls before : List ℕ)
    → now ≤ t
    → Holds limit window now calls before
    → Holds limit window t (expire window t calls) before
expire-Holds limit window now t calls before later (old, same, aged, young, spaced) =
    let here =
      All-imp {P = λ c. c ≤ now} {Q = λ c. c ≤ t} (λ c h. omega (arith, h, later)) calls young in
    let (gone, cut, left, kept) = expire-old window t calls here in
    (
      reverse gone ++ old,
      same
          ∙ ap (λ cs. reverse cs ++ old) cut
          ∙ ap (λ cs. cs ++ old) (reverse-append gone (expire window t calls))
          ∙ append_assoc (reverse (expire window t calls)) (reverse gone) old,
      All-append _ (reverse gone) old (All-reverse _ gone left)
          (All-imp (λ c h. omega (arith, h, later)) old aged),
      kept,
      spaced,
    )

acquire_within-Holds :
    (n window t : ℕ) (calls before : List ℕ)
    → Holds (suc n) window t calls before
    → Holds
        (suc n)
        window
        t
        (acquire_within (suc n) t calls).1
        (through (acquire_within (suc n) t calls).0 t before)
unfolding acquire_within
acquire_within-Holds n window t calls before (old, same, aged, young, spaced) =
    elim (Bool-cases (leb (suc n) (length calls))) [
      | inl full ↦ rw full (old, same, aged, young, spaced)
      | inr free ↦ rw free (
        old,
        ap (◌∷◌ t) same ∙ ap (λ cs. cs ++ old) (sym (reverse-append calls (t ∷ []))),
        aged,
        All-append _ calls (t ∷ []) young (omega arith, tt),
        (
          λ earlier found.
              get_elem?-append (λ c. c + window ≤ t) (reverse calls) old n earlier
                (ground (arith, free, length-reverse calls))
                (ap (λ cs. get_elem? cs n) (sym same) ∙ found) aged,
          spaced,
        ),
      )
    ]

acquire-Holds :
    (n window now t : ℕ) (calls before : List ℕ)
    → now ≤ t
    → Holds (suc n) window now calls before
    → Holds
        (suc n)
        window
        t
        (acquire (pos (suc n)) window t calls).1
        (through (acquire (pos (suc n)) window t calls).0 t before)
unfolding acquire
acquire-Holds n window now t calls before later h =
    acquire_within-Holds n window t (expire window t calls) before
      (expire-Holds (suc n) window now t calls before later h)

granted-Spaced :
    (n window now : ℕ) (times calls before : List ℕ)
    → Ascending now times
    → Holds (suc n) window now calls before
    → Spaced (suc n) window (granted (pos (suc n)) window times calls before)
granted-Spaced n window now [] calls before up h = h.4
granted-Spaced n window now (t ∷ times) calls before (later, up) h =
    granted-Spaced n window t times (acquire (pos (suc n)) window t calls).1
      (through (acquire (pos (suc n)) window t calls).0 t before) up
      (acquire-Holds n window now t calls before later h)

unlimited :
    (window : ℕ) (times calls : List ℕ) (limit : ℤ)
    → ((now : ℕ) (calls : List ℕ) → acquire limit window now calls ≡ (raise other, calls))
    → granted limit window times calls [] ≡ []
unlimited window [] calls limit closed = refl
unlimited window (t ∷ times) calls limit closed =
    rw (closed t calls) (unlimited window times calls limit closed)

-- Where the clock does not go back and the limit is not negative, no more than `limit` calls go through
-- in a window: each is at least a window behind the one that went through `limit` calls before it.
pub acquire-Spaced :
    (limit : ℕ) (window : ℕ) (times : List ℕ)
    → Ascending 0 times
    → Spaced limit window (granted (pos limit) window times [] [])
unfolding acquire
acquire-Spaced zero window times up =
    subst (Spaced 0 window) (sym (unlimited window times [] (pos 0) (λ now calls. refl))) tt
acquire-Spaced (suc n) window times up =
    granted-Spaced n window 0 times [] [] up ([], refl, tt, tt, tt)
