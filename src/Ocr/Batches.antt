-- ===== src/Ocr/Batches.antt =====
-- A batch of pages: its images are rendered, recognized and removed.
use mkc.Prelude.{
  ℕ, suc, ◌+◌, ◌-◌, ◌≤◌, Bool, ◌&&◌, List, [], ◌∷◌, map, length, ltb, ◌≡◌, refl, arith, Bool-cases,
  inl, inr,
}
use mkc.Exceptions.{raise, Result-cases}
use mkc.Runs.{write, Tells, after-Tells, silent-Tells, ok-Tells, write-Tells}
use mkc.Ocr.{
  PdfPage, RenderPage, Action, progressed, Engine, recognize_page, page_of, build_page, progress,
  build_pages, render, unlink, process_batch,
}
use mkc.Ocr.Images.{Bounded, left, At, At-append}

abbrev pub numbers : List RenderPage → List ℕ
numbers pages = map (λ page. page.page_number) pages

abbrev pub Within : ℕ → List Action → Type 0
Within limit log = Bounded limit 0 log

module _ {F : Type 0} where
  -- The pages stand for those that were rendered.
  abbrev pub StandsFor : List RenderPage → List (PdfPage F) → Type 0
  StandsFor rendered_pages pages = map (λ page. page.page_number) pages ≡ numbers rendered_pages

  module _ (limit : ℕ) where
    -- Pages stand for those of a batch, and the images are as before.
    abbrev pub Built : ℕ → List RenderPage → List (PdfPage F) → List Action → Type 0
    Built count batch pages log = StandsFor batch pages × At limit count log

module _ {F : Type 0} (engine : Engine F) where
  pub render-Bounded :
      (limit count : ℕ) (batch : List RenderPage)
      → count + length batch ≤ limit
      → Bounded limit count (render engine batch)
        × (left count (render engine batch) ≡ count + length batch)
  render-Bounded limit count [] h = (tt, omega arith)
  render-Bounded limit count (page ∷ batch) h =
      let (bounded, there) = render-Bounded limit (suc count) batch (omega (arith, h)) in
      ((omega (arith, h), bounded), omega (arith, there))

  unlink-Bounded :
      (limit count : ℕ) (batch : List RenderPage)
      → Bounded limit count (unlink engine batch)
        × (left count (unlink engine batch) ≡ count - length batch)
  unlink-Bounded limit count [] = (tt, omega arith)
  unlink-Bounded limit count (page ∷ batch) =
      let (bounded, there) = unlink-Bounded limit (count - 1) batch in
      (bounded, omega (arith, there))

  module _ (limit : ℕ) where
    build_page-Tells :
        (count : ℕ) (page : RenderPage) (log : List Action)
        → At limit count log
        → Tells log
            (λ p now. (p.page_number ≡ page.page_number) × At limit count now)
            (Within limit)
            (build_page engine page)
    unfolding build_page page_of
    build_page-Tells count page log h =
        elim (Result-cases (recognize_page engine page.page_number)) [
          | inl (e, q) ↦
              rw (build_page, q)
                (silent-Tells log (λ p now. (p.page_number ≡ page.page_number) × At limit count now)
                  (Within limit) (raise e) (λ p same. absurd (cc)) h.0)
          | inr (found, q) ↦
              rw (build_page, q)
                (ok-Tells log (λ p now. (p.page_number ≡ page.page_number) × At limit count now)
                  (Within limit) (page_of engine page.page_number found) (refl, h))
        ]

    progress-Tells :
        (count : ℕ) (has_callback : Bool) (page : RenderPage) (log : List Action)
        → At limit count log
        → Tells log (λ _. At limit count) (Within limit) (write (progress engine has_callback page))
    unfolding progress
    progress-Tells count has_callback page log h =
        elim (Bool-cases (has_callback && ltb 0 page.total_pages)) [
          | inl e ↦ rw e (
              write-Tells log (progressed _ ∷ []) (λ _. At limit count) (Within limit)
                (At-append limit count count log (progressed _ ∷ []) h tt refl))
          | inr e ↦ rw e (
              write-Tells log [] (λ _. At limit count) (Within limit)
                (At-append limit count count log [] h tt refl))
        ]

    build_pages-Tells :
        (count : ℕ) (has_callback : Bool) (batch : List RenderPage) (log : List Action)
        → At limit count log
        → Tells log (Built limit count batch) (Within limit) (build_pages engine has_callback batch)
    unfolding build_pages
    build_pages-Tells count has_callback [] log h =
        ok-Tells log (Built limit count []) (Within limit) [] (refl, h)
    build_pages-Tells count has_callback (page ∷ batch) log h =
        after-Tells log (λ p now. (p.page_number ≡ page.page_number) × At limit count now)
          (Built limit count (page ∷ batch)) (Within limit) (build_page engine page) _
          (build_page-Tells count page log h)
          (λ built now (number, there).
            after-Tells now (λ _. At limit count) (Built limit count (page ∷ batch)) (Within limit)
              _ _ (progress-Tells count has_callback page now there)
              (λ _ next here.
                after-Tells next (Built limit count batch) (Built limit count (page ∷ batch))
                  (Within limit) _ _ (build_pages-Tells count has_callback batch next here)
                  (λ pages last (same, end).
                    ok-Tells last (Built limit count (page ∷ batch)) (Within limit) (built ∷ pages)
                      (cc, end))))

    pub process_batch-Tells :
        (has_callback : Bool) (batch : List RenderPage) (log : List Action)
        → length batch ≤ limit
        → At limit 0 log
        → Tells log (Built limit 0 batch) (Within limit) (process_batch engine has_callback batch)
    unfolding process_batch
    process_batch-Tells has_callback batch log h start =
        let n = length batch in
        let (rendering, there) = render-Bounded limit 0 batch (omega (arith, h)) in
        let (unlinking, gone) = unlink-Bounded limit n batch in
        after-Tells log (λ _. At limit n) (Built limit 0 batch) (Within limit) _ _
          (write-Tells log (render engine batch) (λ _. At limit n) (Within limit)
            (At-append limit 0 n log (render engine batch) start rendering (omega (arith, there))))
          (λ _ now full.
            after-Tells now (Built limit n batch) (Built limit 0 batch) (Within limit) _ _
              (build_pages-Tells n has_callback batch now full)
              (λ pages next (same, still).
                after-Tells next (λ _. At limit 0) (Built limit 0 batch) (Within limit) _ _
                  (write-Tells next (unlink engine batch) (λ _. At limit 0) (Within limit)
                    (At-append limit n 0 next (unlink engine batch) still unlinking
                      (omega (arith, gone))))
                  (λ _ last empty.
                    ok-Tells last (Built limit 0 batch) (Within limit) pages (same, empty))))
