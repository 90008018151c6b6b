-- ===== src/Chunking/Fixed/Search.antt =====
-- What the two binary searches find, with no assumption on how the token count grows.
use mkc.Prelude.{
  ℕ, zero, suc, ◌+◌, ◌-◌, ◌/◌, ◌≤◌, ◌<◌, Bool, true, false, length, slice, ltb, leb, leb→le, ◌⊎◌,
  inl, inr, ◌≡◌, refl, arith, Bool-cases,
}
use mkc.Prelude.Text.{Text}
use mkc.Chunking.{Config, Estimator, count}
use mkc.Chunking.Fixed.{bisect, find_max_end, find_overlap_chars}

-- A search that has ended at `r` tested `r - 1` and passed, unless it never moved up, and tested
-- `r` and failed, unless it never moved down.
pub record Found (ok : ℕ → Bool) (lo hi r : ℕ) : Type 0 where
  pub above : lo ≤ r
  pub below : r ≤ hi
  pub passed : (r ≡ lo) ⊎ (ok (r - 1) ≡ true)
  pub failed : (r ≡ hi) ⊎ (ok r ≡ false)

last_passed :
    (ok : ℕ → Bool) (m r : ℕ) → ok m ≡ true → (r ≡ suc m) ⊎ (ok (r - 1) ≡ true) → ok (r - 1) ≡ true
last_passed ok m r t (inl e) = let back : r - 1 ≡ m = omega arith in rw back t
last_passed ok m r t (inr p) = p

last_failed : (ok : ℕ → Bool) (m r : ℕ) → ok m ≡ false → (r ≡ m) ⊎ (ok r ≡ false) → ok r ≡ false
last_failed ok m r t (inl e) = rw e t
last_failed ok m r t (inr p) = p

bisect-Found :
    (ok : ℕ → Bool) (f lo hi : ℕ) → lo ≤ hi → hi < f + lo → Found ok lo hi (bisect ok f lo hi)
unfolding bisect
bisect-Found ok zero lo hi le fuel = absurd (omega arith)
bisect-Found ok (suc f) lo hi le fuel = elim (Bool-cases (ltb lo hi)) [
  | inr done ↦
      rw done
        (record { above = omega arith; below = le; passed = inl refl; failed = inl (ground arith) })
  | inl more ↦ elim (Bool-cases (ok ((lo + hi) / 2))) [
    | inl t ↦
        let h = bisect-Found ok f (suc ((lo + hi) / 2)) hi (ground arith) (ground arith) in
        rw (more, t)
          (record {
            above = omega (arith, h.above);
            below = h.below;
            passed = inr (last_passed ok _ _ t h.passed);
            failed = h.failed;
          })
    | inr t ↦
        let h = bisect-Found ok f lo ((lo + hi) / 2) (ground arith) (ground arith) in
        rw (more, t)
          (record {
            above = h.above;
            below = ground (arith, h.below);
            passed = h.passed;
            failed = inr (last_failed ok _ _ t h.failed);
          })
  ]
]

module _ (cfg : Config) (est : Estimator) (text : Text) where
  -- The end of a window: it lies in the text, its tokens are within the limit unless the window is
  -- empty, and with one more character they are not, unless the text is at its end.
  pub record WindowEnd (start size end : ℕ) : Type 0 where
    pub from : start ≤ end
    pub upto : end ≤ length text
    pub within : (end ≡ start) ⊎ (count est (slice start end text) ≤ size)
    pub largest : (end ≡ length text) ⊎ (size < count est (slice start (suc end) text))

  pub find_max_end-WindowEnd :
      (start size : ℕ)
      → start ≤ length text
      → WindowEnd start size (find_max_end cfg est text start size)
  unfolding find_max_end
  find_max_end-WindowEnd start size le =
      let r =
        bisect (λ mid. leb (count est (slice start mid text)) size) (length text + 1) (start + 1)
          (length text + 1) in
      let h =
        bisect-Found (λ mid. leb (count est (slice start mid text)) size) (length text + 1)
          (start + 1) (length text + 1) (omega arith) (omega arith) in
      let next : suc (r - 1) ≡ r = omega (arith, h.above) in
      record {
        from = omega (arith, h.above);
        upto = omega (arith, h.below);
        within = elim h.passed [ inl e ↦ inl (omega arith) | inr p ↦ inr (leb→le _ _ p) ];
        largest = elim h.failed [
          | inl e ↦ inl (omega arith)
          | inr p ↦ inr (rw next (ground (arith, p)))
        ];
      }

  -- The overlap: it lies in the window, and its tokens are within the limit unless it is empty.
  pub find_overlap_chars-within :
      (start end overlap : ℕ)
      → let n = find_overlap_chars cfg est text start end overlap in
        (n ≤ end - start) × ((n ≡ 0) ⊎ (count est (slice (end - n) end text) ≤ overlap))
  unfolding find_overlap_chars
  find_overlap_chars-within start end overlap =
      let ok = λ (mid : ℕ). leb (count est (slice (end - mid) end text)) overlap in
      let h = bisect-Found ok (end - start + 2) 0 (end - start + 1) (omega arith) (omega arith) in
      elim (Bool-cases (leb overlap 0)) [
        | inl e ↦ rw e (omega arith, inl refl)
        | inr e ↦ elim (Bool-cases (leb end start)) [
          | inl d ↦ rw (e, d) (omega arith, inl refl)
          | inr d ↦
              rw (e, d)
                (
                  omega (arith, h.below),
                  elim h.passed [ inl p ↦ inl (omega arith) | inr p ↦ inr (leb→le _ _ p) ],
                )
        ]
      ]
