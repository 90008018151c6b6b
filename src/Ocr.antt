-- ===== src/Ocr.antt =====
-- ai-service/app/services/ocr_service.py: the pages of a scanned document are rendered to images, a batch
-- at a time, recognized, and the images removed. A run gives what it did, and its result. `F` stands for
-- the floats.
pub mod Images
pub mod Batches
pub mod Pages
use mkc.Prelude.{
  ℕ, zero, suc, max, min, Bool, true, false, not, ◌&&◌, ◌||◌, Option, none, some, List, [], ◌∷◌,
  ◌++◌, map, length, take, drop, leb, ltb, if◌then◌else◌,
}
use mkc.Prelude.Text.{Text, codes, text_eqb, nonempty, strip, join}
use mkc.Runs.{Run, silent, write, after}
use mkc.Exceptions.{Exception, Result, ok, raise, api, code_of}

-- `PdfBlock`, without the size and the confidence, which are only handed on
pub record PdfBlock (F : Type 0) : Type 0 where
  pub x : F
  pub y : F
  pub text : Text

-- `PdfPage`
pub record PdfPage (F : Type 0) : Type 0 where
  pub page_number : ℕ
  pub text : Text
  pub blocks : List (PdfBlock F)

-- `PdfDocument`, without its table of contents, which is only handed on, and empty after OCR
pub record PdfDocument (F : Type 0) : Type 0 where
  pub resource_id : Text
  pub total_pages : ℕ
  pub pages : List (PdfPage F)

-- `RenderPage`; the image is named by the number of the page.
pub record RenderPage : Type 0 where
  pub page_number : ℕ
  pub total_pages : ℕ

-- What is done: an image is written, progress is reported, an image is removed.
pub data Action : Type 0 where
  rendered : ℕ → Action
  progressed : ℕ → Action
  unlinked : ℕ → Action

-- The engine, the order of floats, and `int(a / b * 100)`, which rounds
pub record Engine (F : Type 0) : Type 0 where
  pub recognize : ℕ → Result (List (PdfBlock F))
  pub lt : F → F → Bool
  pub percent : ℕ → ℕ → ℕ

module _ {F : Type 0} (engine : Engine F) where
  -- The key of a block, `(block.y, block.x)`, stands behind the other one.
  unfoldable pub is_behind : PdfBlock F → PdfBlock F → Bool
  is_behind a b = engine.lt b.y a.y || (not (engine.lt a.y b.y) && engine.lt b.x a.x)

  unfoldable pub insert_block : PdfBlock F → List (PdfBlock F) → List (PdfBlock F)
  insert_block block [] = block ∷ []
  insert_block block (b ∷ blocks) =
      let rest = insert_block block blocks in
      if is_behind block b then b ∷ rest else block ∷ b ∷ blocks

  unfoldable pub sort_blocks : List (PdfBlock F) → List (PdfBlock F)
  sort_blocks [] = []
  sort_blocks (b ∷ blocks) = insert_block b (sort_blocks blocks)

  -- `_recognize_page`: a page that fails has no blocks.
  unfoldable pub recognize_page : ℕ → Result (List (PdfBlock F))
  recognize_page page_number = elim (engine.recognize page_number) [
    | ok blocks ↦ ok blocks
    | raise e ↦ if text_eqb (code_of e) (codes "OCR_PAGE_FAILED") then ok [] else raise e
  ]

  unfoldable pub page_of : ℕ → List (PdfBlock F) → PdfPage F
  page_of page_number found =
      let blocks = sort_blocks found in
      record {
        page_number = page_number;
        text = join (codes "\n") (map (λ block. block.text) blocks);
        blocks = blocks;
      }

  -- `_build_page`
  unfoldable pub build_page : RenderPage → Run Action (PdfPage F)
  build_page render_page = elim (recognize_page render_page.page_number) [
    | ok found ↦ silent (ok (page_of render_page.page_number found))
    | raise e ↦ silent (raise e)
  ]

  -- The call of `progress_callback`, where there is one
  unfoldable pub progress : Bool → RenderPage → List Action
  progress has_callback render_page =
      if has_callback && ltb 0 render_page.total_pages
      then progressed (min (engine.percent render_page.page_number render_page.total_pages) 100)
        ∷ []
      else []

  -- The first loop over a batch
  unfoldable pub build_pages : Bool → List RenderPage → Run Action (List (PdfPage F))
  build_pages has_callback [] = silent (ok [])
  build_pages has_callback (render_page ∷ batch) = after (build_page render_page) (λ page.
      after (write (progress has_callback render_page))
        (λ _. after (build_pages has_callback batch) (λ pages. silent (ok (page ∷ pages)))))

  abbrev pub render : List RenderPage → List Action
  render batch = map (λ render_page. rendered render_page.page_number) batch

  abbrev pub unlink : List RenderPage → List Action
  unlink batch = map (λ render_page. unlinked render_page.page_number) batch

  -- A round of `while True`
  unfoldable pub process_batch : Bool → List RenderPage → Run Action (List (PdfPage F))
  process_batch has_callback batch = after (write (render batch)) (λ _.
      after (build_pages has_callback batch)
        (λ pages. after (write (unlink batch)) (λ _. silent (ok pages))))

  -- The loop, on fuel, where the renderer yields `pages` and then ends or raises. One round more than
  -- there are pages is enough, since a round takes at least one.
  unfoldable pub process_batches :
      ℕ → ℕ → Bool → List RenderPage → Option Exception → Run Action (List (PdfPage F))
  process_batches zero size has_callback pages failure = silent (ok [])
  process_batches (suc fuel) size has_callback pages failure =
      let more = after (process_batch has_callback (take size pages)) (λ built.
        after (process_batches fuel size has_callback (drop size pages) failure)
          (λ others. silent (ok (built ++ others)))) in
      if ltb (length pages) size
      then elim failure [
        | some e ↦ record { log = render pages; result = raise e }
        | none ↦ if nonempty pages then more else silent (ok [])
      ]
      else more

  -- `all(not page.text.strip() for page in pages)`, which holds of no pages
  unfoldable pub is_blank : List (PdfPage F) → Bool
  is_blank [] = true
  is_blank (page ∷ pages) = not (nonempty (strip page.text)) && is_blank pages

  unfoldable pub document_of : Text → List (PdfPage F) → Run Action (PdfDocument F)
  document_of resource_id pages =
      if is_blank pages
      then silent (raise (api (codes "OCR_NO_TEXT")))
      else silent
          (ok (record { resource_id = resource_id; total_pages = length pages; pages = pages }))

  -- `process_pdf`
  unfoldable pub process_pdf :
      ℕ → Text → Bool → List RenderPage → Option Exception → Run Action (PdfDocument F)
  process_pdf max_pages_in_memory resource_id has_callback pages failure =
      after
        (process_batches (suc (length pages)) (max 1 max_pages_in_memory) has_callback pages
          failure)
        (document_of resource_id)
