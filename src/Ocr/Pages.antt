-- ===== src/Ocr/Pages.antt =====
-- The images of `OcrService.process_pdf`, and the pages of its document.
use mkc.Prelude.{ℕ, List, length, ◌≡◌}
use mkc.Prelude.Text.{Text}
use mkc.Ocr.{PdfDocument, RenderPage, Action, Engine}
use mkc.Ocr.Images.{At}
use mkc.Ocr.Batches.{StandsFor}

module _ {F : Type 0} (engine : Engine F) where
  module _ (limit : ℕ) where
    -- A document has the pages that were rendered, and no image is left.
    abbrev IsDocument : List RenderPage → PdfDocument F → List Action → Type 0
    IsDocument rendered_pages document log =
        StandsFor rendered_pages document.pages
        × (document.total_pages ≡ length rendered_pages)
        × At limit 0 log
