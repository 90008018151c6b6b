-- ===== src/Pdf/Reports.antt =====
-- What `PdfParserService.parse` reports of a task, in what order.
use mathlib.Core.List.{append-nil}
use mkc.Prelude.{true, false, List, [], ◌∷◌, ◌++◌, All, ◌≡◌, ◌⊎◌, refl, ◌∙◌, Bool-cases, inl, inr}
use mkc.Prelude.Text.{Text, text_in, text_eqb}
use mkc.Exceptions.{Exception, Result, ok, raise, code_of}
use mkc.Ocr.{PdfDocument}
use mkc.Pdf.Steps.{IsProgress, Pending, Completed, parse_body-Tells}
use mkc.Pdf.{
  Report, running, completed, failed, Parser, PdfParseTask, pdf_codes, reraised, mark_status,
  parse_body, handle, parse,
}

module _ {F : Type 0} where
  module _ (parser : Parser F) where
    -- What was reported where `parse` returns, and where it raises, in terms of `_mark_status`
    abbrev IsMarked : List (Report F) → Result (PdfDocument F × Text) → Type 0
    IsMarked reports (ok out) = Completed parser out reports
    IsMarked reports (raise e) =
        (text_in (code_of e) pdf_codes ≡ true)
        × (before : List (Report F)) × Pending parser before
        × (reports ≡ before ++ mark_status parser failed)

    reraised-code : (e : Exception) → text_in (code_of (reraised e)) pdf_codes ≡ true
    unfolding reraised code_of text_in text_eqb
    reraised-code e = elim (Bool-cases (text_in (code_of e) pdf_codes)) [
      | inl known ↦ rw known known
      | inr unknown ↦ rw unknown refl
    ]

    handle-IsMarked :
        (reports : List (Report F)) (result : Result (PdfDocument F × Text))
        → ((out : PdfDocument F × Text) → result ≡ ok out → Completed parser out reports)
        → ((e : Exception) → result ≡ raise e → Pending parser reports)
        → IsMarked (handle parser reports result).log (handle parser reports result).result
    unfolding handle
    handle-IsMarked reports (ok out) returns raises = returns out refl
    handle-IsMarked reports (raise e) returns raises =
        (reraised-code e, reports, raises e refl, refl)

    -- The task is reported as running, then its progress, and at the end as completed, with the document
    -- and the address that are returned, or as failed.
    abbrev pub Marks : List (Report F) → Result (PdfDocument F × Text) → Type 0
    Marks reports (ok (document, parsed_url)) =
        (between : List (Report F)) × All IsProgress between
        × (reports ≡ running ∷ (between ++ (completed document parsed_url ∷ [])))
    Marks reports (raise e) =
        (text_in (code_of e) pdf_codes ≡ true)
        × ((reports ≡ failed ∷ [])
            ⊎ ((between : List (Report F)) × All IsProgress between
                × (reports ≡ running ∷ (between ++ (failed ∷ [])))))

    -- Only progress is reported.
    abbrev pub Quiet : List (Report F) → Result (PdfDocument F × Text) → Type 0
    Quiet reports (ok out) = All IsProgress reports
    Quiet reports (raise e) = (text_in (code_of e) pdf_codes ≡ true) × All IsProgress reports

    abbrev pub IsReported : List (Report F) → Result (PdfDocument F × Text) → Type 0
    IsReported reports result =
        (parser.report_status ≡ true × Marks reports result)
        ⊎ (parser.report_status ≡ false × Quiet reports result)

    mark_status-on : (r : Report F) → parser.report_status ≡ true → mark_status parser r ≡ r ∷ []
    unfolding mark_status
    mark_status-on r h = rw h refl

    mark_status-off : (r : Report F) → parser.report_status ≡ false → mark_status parser r ≡ []
    unfolding mark_status
    mark_status-off r h = rw h refl

    IsMarked-Marks :
        (reports : List (Report F)) (result : Result (PdfDocument F × Text))
        → parser.report_status ≡ true
        → IsMarked reports result
        → Marks reports result
    IsMarked-Marks reports (ok (document, parsed_url)) on (between, all, same) = (
      between,
      all,
      same ∙ rw (mark_status-on running on, mark_status-on (completed document parsed_url) on) refl,
    )
    IsMarked-Marks reports (raise e) on (code, before, inl none_yet, same) =
        (code, inl (same ∙ rw (none_yet, mark_status-on failed on) refl))
    IsMarked-Marks reports (raise e) on (code, before, inr (between, all, begun), same) = (
      code,
      inr (
        between,
        all,
        same ∙ rw (begun, mark_status-on running on, mark_status-on failed on) refl,
      ),
    )

    IsMarked-Quiet :
        (reports : List (Report F)) (result : Result (PdfDocument F × Text))
        → parser.report_status ≡ false
        → IsMarked reports result
        → Quiet reports result
    IsMarked-Quiet reports (ok (document, parsed_url)) off (between, all, same) =
        let only : reports ≡ between =
          same
          ∙ rw (mark_status-off running off, mark_status-off (completed document parsed_url) off)
              (append-nil between) in
        rw only all
    IsMarked-Quiet reports (raise e) off (code, before, inl none_yet, same) =
        let only : reports ≡ [] = same ∙ rw (none_yet, mark_status-off failed off) refl in
        (code, rw only tt)
    IsMarked-Quiet reports (raise e) off (code, before, inr (between, all, begun), same) =
        let only : reports ≡ between =
          same
          ∙ rw (begun, mark_status-off running off, mark_status-off failed off)
              (append-nil between) in
        (code, rw only all)

    -- With `report_status`, a task that is parsed is reported as running, then its progress, and last as
    -- completed, with the document and the address that are returned. Where an exception leaves `parse`,
    -- it is one of those that the service names; that the task failed is reported last, and before it
    -- nothing, or that it is running and its progress. Without `report_status`, nothing but progress
    -- is reported.
    pub parse-IsReported :
        (task : PdfParseTask) → IsReported (parse parser task).log (parse parser task).result
    unfolding parse
    parse-IsReported task =
        let body = parse_body parser task in
        let (returns, raises) = parse_body-Tells parser task in
        let whole = handle parser body.log body.result in
        let marked = handle-IsMarked body.log body.result returns raises in
        elim (Bool-cases parser.report_status) [
          | inl on ↦ inl (on, IsMarked-Marks whole.log whole.result on marked)
          | inr off ↦ inr (off, IsMarked-Quiet whole.log whole.result off marked)
        ]
