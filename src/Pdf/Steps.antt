-- ===== src/Pdf/Steps.antt =====
-- What the steps of `PdfParserService.parse` report of a task, in what order.
use mathlib.Core.List.{append_assoc, append-nil}
use mkc.Prelude.{
  ℕ, suc, ◌+◌, ◌&&◌, ◌||◌, Option, none, some, List, [], ◌∷◌, ◌++◌, map, All, All-append, leb, ltb,
  ◌≡◌, ◌⊎◌, refl, ap, sym, ◌∙◌, Bool-cases, inl, inr,
}
use mkc.Prelude.Text.{Text}
use mkc.Exceptions.{Result, ok, raise}
use mkc.Ocr.{PdfPage, PdfDocument}
use mkc.Runs.{after, silent, write, Tells, after-Tells, silent-Tells, ok-Tells, write-Tells}
use mkc.Pdf.{
  Report, progress, running, completed, Parser, PdfParseTask, parse_failed, mark_status,
  is_fully_scanned, detect_no_text_layer, run_ocr, apply_ocr_fallback, page_progress, page_reports,
  extract_and_report, enforce_size_limit, result_key, parse_body,
}

module _ {F : Type 0} where
  abbrev pub IsProgress : Report F → Type 0
  IsProgress (progress n) = Unit
  IsProgress _ = ⊥

  module _ (parser : Parser F) where
    -- The task is running, and nothing but progress was reported since.
    abbrev pub Started : List (Report F) → Type 0
    Started reports =
        (between : List (Report F)) × All IsProgress between
        × (reports ≡ mark_status parser running ++ between)

    abbrev pub Pending : List (Report F) → Type 0
    Pending reports = (reports ≡ []) ⊎ Started reports

    abbrev pub Completed : PdfDocument F × Text → List (Report F) → Type 0
    Completed (document, parsed_url) reports =
        (between : List (Report F)) × All IsProgress between
        × (reports
            ≡ mark_status parser running
              ++ (between ++ mark_status parser (completed document parsed_url)))

    progress-Started :
        (reports more : List (Report F))
        → All IsProgress more
        → Started reports
        → Started (reports ++ more)
    progress-Started reports more h (between, all, same) = (
      between ++ more,
      All-append IsProgress between more all h,
      ap (λ rs. rs ++ more) same ∙ append_assoc (mark_status parser running) between more,
    )

    page_reports-All :
        (total_pages index last_reported : ℕ) (pages : List (PdfPage F))
        → All IsProgress (page_reports parser total_pages index last_reported pages)
    unfolding page_reports
    page_reports-All total_pages index last_reported [] = tt
    page_reports-All total_pages index last_reported (page ∷ pages) =
        let now = page_progress parser index total_pages in
        elim (Bool-cases (leb (last_reported + parser.progress_interval) now || leb 100 now)) [
          | inl e ↦ rw e (tt, page_reports-All total_pages (suc index) now pages)
          | inr e ↦ rw e (page_reports-All total_pages (suc index) last_reported pages)
        ]

    map_progress-All : (ns : List ℕ) → All IsProgress (map progress ns)
    map_progress-All [] = tt
    map_progress-All (n ∷ ns) = (tt, map_progress-All ns)

    run_ocr-Tells :
        (ocr : Option (Text → List ℕ × Result (PdfDocument F))) (task : PdfParseTask)
        (extracted : PdfDocument F) (before : List (Report F))
        → Started before
        → Tells before (λ _. Started) Pending (run_ocr parser ocr task extracted)
    unfolding run_ocr
    run_ocr-Tells none task extracted before h =
        silent-Tells before (λ _. Started) Pending (detect_no_text_layer parser extracted)
          (λ _ _. h) (inr h)
    run_ocr-Tells (some process_pdf) task extracted before h =
        let ps = (process_pdf task.resource_id).0 in
        let more = progress-Started before (map progress ps) (map_progress-All ps) h in
        (λ _ _. more, λ _ _. inr more)

    apply_ocr_fallback-Tells :
        (task : PdfParseTask) (extracted : PdfDocument F) (before : List (Report F))
        → Started before
        → Tells before (λ _. Started) Pending (apply_ocr_fallback parser task extracted)
    unfolding apply_ocr_fallback
    apply_ocr_fallback-Tells task extracted before h =
        elim (Bool-cases (parser.ocr_fallback && is_fully_scanned parser extracted)) [
          | inr e ↦
              rw e (silent-Tells before (λ _. Started) Pending (ok extracted) (λ _ _. h) (inr h))
          | inl e ↦ rw e (run_ocr-Tells parser.ocr task extracted before h)
        ]

    extract_and_write-Tells :
        (task : PdfParseTask) (before : List (Report F))
        → Started before
        → Tells before (λ _. Started) Pending (extract_and_report parser task)
    unfolding extract_and_report
    extract_and_write-Tells task before h =
        after-Tells before (λ _. Started) (λ _. Started) Pending _ _
          (silent-Tells before (λ _. Started) Pending (parser.extract task.pdf_url task.resource_id)
            (λ _ _. h) (inr h))
          (λ extracted reports start.
            elim (Bool-cases (ltb parser.max_pages extracted.total_pages)) [
              | inl e ↦ rw e (
                  silent-Tells reports (λ _. Started) Pending (raise parse_failed) (λ _ _. start)
                    (inr start))
              | inr e ↦ rw e (
                  after-Tells reports (λ _. Started) (λ _. Started) Pending _ _
                    (apply_ocr_fallback-Tells task extracted reports start)
                    (λ document later started.
                      let pages = page_reports parser document.total_pages 0 0 document.pages in
                      after-Tells later (λ _. Started) (λ _. Started) Pending _ _
                        (write-Tells later pages (λ _. Started) Pending
                          (progress-Started later pages
                            (page_reports-All document.total_pages 0 0 document.pages) started))
                        (λ _ last ready.
                          silent-Tells last (λ _. Started) Pending (ok document) (λ _ _. ready)
                            (inr ready))))
            ])

    complete-Completed :
        (reports : List (Report F)) (document : PdfDocument F) (parsed_url : Text)
        → Started reports
        → Completed
            (document, parsed_url)
            (reports ++ mark_status parser (completed document parsed_url))
    complete-Completed reports document parsed_url (between, all, same) = (
      between,
      all,
      ap (λ rs. rs ++ mark_status parser (completed document parsed_url)) same
          ∙ append_assoc (mark_status parser running) between
              (mark_status parser (completed document parsed_url)),
    )

    abbrev Nothing : List (Report F) → Type 0
    Nothing reports = reports ≡ []

    enforce_size_limit-Tells :
        (task : PdfParseTask) (before : List (Report F))
        → Nothing before
        → Tells before (λ _. Nothing) Pending (enforce_size_limit parser task)
    unfolding enforce_size_limit
    enforce_size_limit-Tells task before h =
        after-Tells before (λ _. Nothing) (λ _. Nothing) Pending _ _
          (silent-Tells before (λ _. Nothing) Pending (parser.size task.pdf_url) (λ _ _. h) (inl h))
          (λ size reports start.
            silent-Tells reports (λ _. Nothing) Pending _ (λ _ _. start) (inl start))

    finish-Tells :
        (document : PdfDocument F) (parsed_url : Text) (reports : List (Report F))
        → Started reports
        → Tells reports Completed Pending (
            after
              (write (mark_status parser (completed document parsed_url)))
              (λ _. silent (ok (document, parsed_url))))
    finish-Tells document parsed_url reports h =
        after-Tells reports (λ _. Completed (document, parsed_url)) Completed Pending _ _
          (write-Tells reports (mark_status parser (completed document parsed_url))
            (λ _. Completed (document, parsed_url)) Pending
            (complete-Completed reports document parsed_url h))
          (λ _ last whole. ok-Tells last Completed Pending (document, parsed_url) whole)

    pub parse_body-Tells :
        (task : PdfParseTask) → Tells [] Completed Pending (parse_body parser task)
    unfolding parse_body
    parse_body-Tells task =
        after-Tells [] (λ _. Nothing) Completed Pending _ _
          (silent-Tells [] (λ _. Nothing) Pending (parser.download task.pdf_url) (λ _ _. refl)
            (inl refl))
          (λ _ before none_yet.
            after-Tells before (λ _. Nothing) Completed Pending _ _
              (enforce_size_limit-Tells task before none_yet)
              (λ _ still empty.
                after-Tells still (λ _. Started) Completed Pending _ _
                  (write-Tells still (mark_status parser running) (λ _. Started) Pending
                    (
                      [],
                      tt,
                      ap (λ rs. rs ++ mark_status parser running) empty
                          ∙ sym (append-nil (mark_status parser running)),
                    ))
                  (λ _ begun start.
                    after-Tells begun (λ _. Started) Completed Pending _ _
                      (extract_and_write-Tells task begun start)
                      (λ document told ready.
                        after-Tells told (λ _. Started) Completed Pending _ _
                          (silent-Tells told (λ _. Started) Pending
                            (parser.upload document (result_key parser task)) (λ _ _. ready)
                            (inr ready))
                          (λ parsed_url reports up. finish-Tells document parsed_url reports up)))))
