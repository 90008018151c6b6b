-- ===== src/Pdf.antt =====
-- ai-service/app/services/pdf_parser_service.py and the tests for scanned pages of pymupdf_extractor.py: a
-- document is downloaded, extracted, uploaded, and its task reported. A run gives the reports, and its
-- result. The reporter does not raise: it catches what its requests raise. `F` stands for the floats.
pub mod Steps
pub mod Reports
use mkc.Prelude.{
  ℕ, zero, suc, ◌+◌, ◌-◌, min, Bool, true, false, not, ◌&&◌, ◌||◌, Option, none, some, List, [],
  ◌∷◌, ◌++◌, map, length, keep_if, leb, ltb, if◌then◌else◌,
}
use mkc.Prelude.Text.{Text, codes, text_in, nonempty, strip}
use mkc.Exceptions.{Exception, Result, ok, raise, api, code_of}
use mkc.Runs.{Run, silent, write, after}
use mkc.Ocr.{PdfPage, PdfDocument}

-- A call of the reporter: `report_progress(..., "running")`, or `mark_status`
pub data Report (F : Type 0) : Type 0 where
  progress : ℕ → Report F
  running : Report F
  completed : PdfDocument F → Text → Report F
  failed : Report F

-- `PdfParserService.__init__`: the collaborators, and the settings. `percent` is `int(a / b * 100)`; the
-- interval is a whole number.
pub record Parser (F : Type 0) : Type 0 where
  pub download : Text → Result {0} Unit
  pub size : Text → Result ℕ
  pub extract : Text → Text → Result (PdfDocument F)
  pub ocr : Option (Text → List ℕ × Result (PdfDocument F))
  pub upload : PdfDocument F → Text → Result Text
  pub percent : ℕ → ℕ → ℕ
  pub progress_interval : ℕ
  pub ocr_fallback : Bool
  pub ocr_threshold : ℕ
  pub max_pdf_size : ℕ
  pub max_pages : ℕ
  pub report_status : Bool

-- `PdfParseTask`
pub record PdfParseTask : Type 0 where
  pub task_id : Text
  pub resource_id : Text
  pub pdf_url : Text

-- Characters that `_safe_task_id` keeps
unfoldable pub is_safe : ℕ → Bool
is_safe c =
    (leb 97 c && leb c 122)
    || (leb 65 c && leb c 90)
    || (leb 48 c && leb c 57)
    || (leb 95 c && leb c 95)
    || (leb 45 c && leb c 45)

-- `_safe_task_id`
unfoldable pub safe_task_id : Text → Text
safe_task_id task_id =
    let kept = keep_if is_safe task_id in if nonempty kept then kept else codes "unknown"

-- The codes of the exceptions that `parse` raises again
abbrev pub pdf_codes : List Text
pdf_codes =
    codes "PDF_NOT_FOUND"
    ∷ codes "ENCRYPTED_PDF"
    ∷ codes "CORRUPT_PDF"
    ∷ codes "NO_TEXT_LAYER"
    ∷ codes "PDF_PARSE_FAILED"
    ∷ codes "OCR_UNAVAILABLE"
    ∷ codes "OCR_PAGE_FAILED"
    ∷ codes "OCR_NO_TEXT"
    ∷ []

abbrev pub parse_failed : Exception
parse_failed = api (codes "PDF_PARSE_FAILED")

-- The exception that leaves `parse`
unfoldable pub reraised : Exception → Exception
reraised e = if text_in (code_of e) pdf_codes then e else parse_failed

module _ {F : Type 0} where
  module _ (parser : Parser F) where
    -- `_mark_status`
    unfoldable pub mark_status : Report F → List (Report F)
    mark_status status = if parser.report_status then status ∷ [] else []

    -- `is_scanned_page`
    unfoldable pub is_scanned_page : PdfPage F → Bool
    is_scanned_page page = ltb (length (strip page.text)) parser.ocr_threshold

    unfoldable pub all_scanned : List (PdfPage F) → Bool
    all_scanned [] = true
    all_scanned (page ∷ pages) = is_scanned_page page && all_scanned pages

    -- `_is_fully_scanned`
    unfoldable pub is_fully_scanned : PdfDocument F → Bool
    is_fully_scanned document = nonempty document.pages && all_scanned document.pages

    -- `detect_no_text_layer`, and the document
    unfoldable pub detect_no_text_layer : PdfDocument F → Result (PdfDocument F)
    detect_no_text_layer document =
        if is_fully_scanned document then raise (api (codes "NO_TEXT_LAYER")) else ok document

    -- What is done with a scanned document
    unfoldable pub run_ocr :
        Option (Text → List ℕ × Result (PdfDocument F))
        → PdfParseTask
        → PdfDocument F
        → Run (Report F) (PdfDocument F)
    run_ocr none task extracted = silent (detect_no_text_layer extracted)
    run_ocr (some process_pdf) task extracted =
        let (progresses, result) = process_pdf task.resource_id in
        record { log = map progress progresses; result = result }

    -- `_apply_ocr_fallback`
    unfoldable pub apply_ocr_fallback :
        PdfParseTask → PdfDocument F → Run (Report F) (PdfDocument F)
    apply_ocr_fallback task extracted =
        if parser.ocr_fallback && is_fully_scanned extracted
        then run_ocr parser.ocr task extracted
        else silent (ok extracted)

    -- `_page_progress`
    unfoldable pub page_progress : ℕ → ℕ → ℕ
    page_progress page_index zero = 100
    page_progress page_index (suc n) = min (parser.percent (page_index + 1) (suc n)) 100

    -- The loop of `_extract_and_report`
    unfoldable pub page_reports : ℕ → ℕ → ℕ → List (PdfPage F) → List (Report F)
    page_reports total_pages index last_reported [] = []
    page_reports total_pages index last_reported (page ∷ pages) =
        let now = page_progress index total_pages in
        let told = page_reports total_pages (suc index) now pages in
        let quiet = page_reports total_pages (suc index) last_reported pages in
        if leb (last_reported + parser.progress_interval) now || leb 100 now
        then progress now ∷ told
        else quiet

    -- `_extract_and_report`
    unfoldable pub extract_and_report : PdfParseTask → Run (Report F) (PdfDocument F)
    extract_and_report task =
        after (silent (parser.extract task.pdf_url task.resource_id)) (λ extracted.
          if ltb parser.max_pages extracted.total_pages
          then silent (raise parse_failed)
          else after (apply_ocr_fallback task extracted) (λ document.
            after (write (page_reports document.total_pages 0 0 document.pages))
              (λ _. silent (ok document))))

    -- `_enforce_size_limit`
    unfoldable pub enforce_size_limit : PdfParseTask → Run (Report F) (Unit {0})
    enforce_size_limit task =
        after (silent (parser.size task.pdf_url))
          (λ size. silent (if ltb parser.max_pdf_size size then raise parse_failed else ok tt))

    -- The key of the parsed document
    unfoldable pub result_key : PdfParseTask → Text
    result_key task = codes "results/" ++ (safe_task_id task.task_id ++ codes "/parsed.json")

    -- The body of the `try` of `parse`
    unfoldable pub parse_body : PdfParseTask → Run (Report F) (PdfDocument F × Text)
    parse_body task = after (silent (parser.download task.pdf_url)) (λ _.
        after (enforce_size_limit task) (λ _. after (write (mark_status running)) (λ _.
          after (extract_and_report task) (λ document.
            after (silent (parser.upload document (result_key task))) (λ parsed_url.
              after (write (mark_status (completed document parsed_url)))
                (λ _. silent (ok (document, parsed_url))))))))

    -- The `except` clauses
    unfoldable pub handle :
        List (Report F) → Result (PdfDocument F × Text) → Run (Report F) (PdfDocument F × Text)
    handle reports (ok out) = record { log = reports; result = ok out }
    handle reports (raise e) = record {
      log = reports ++ mark_status failed;
      result = raise (reraised e);
    }

    -- `parse`: the result is the document with the address of its upload.
    unfoldable pub parse : PdfParseTask → Run (Report F) (PdfDocument F × Text)
    parse task = handle (parse_body task).log (parse_body task).result
