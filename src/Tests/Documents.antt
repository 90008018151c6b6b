-- ===== src/Tests/Documents.antt =====
-- Witnesses for documents: one scanned page, recognized and parsed.
use mkc.Prelude.{ℕ, ◌*◌, ◌/◌, true, none, List, [], ◌∷◌, ltb}
use mkc.Prelude.Text.{codes}
use mkc.Exceptions.{ok}
use mkc.Ocr.{PdfDocument, RenderPage, Engine}
use mkc.Pdf.{Parser, PdfParseTask, parse}
use mkc.Pdf.Reports.{IsReported, parse-IsReported}

abbrev engine : Engine ℕ
engine = record {
  recognize = λ n. ok (record { x = 1; y = 2; text = codes "hello" } ∷ []);
  lt = ltb;
  percent = λ a b. a * 100 / b;
}

abbrev pages : List RenderPage
pages =
    record { page_number = 1; total_pages = 2 } ∷ record { page_number = 2; total_pages = 2 } ∷ []

abbrev document : PdfDocument ℕ
document = record {
  resource_id = codes "r";
  total_pages = 1;
  pages = record { page_number = 1; text = codes "a text"; blocks = [] } ∷ [];
}

abbrev parser : Parser ℕ
parser = record {
  download = λ url. ok tt;
  size = λ url. ok 10;
  extract = λ url resource_id. ok document;
  ocr = none;
  upload = λ d key. ok key;
  percent = λ a b. a * 100 / b;
  progress_interval = 5;
  ocr_fallback = true;
  ocr_threshold = 3;
  max_pdf_size = 100;
  max_pages = 5;
  report_status = true;
}

abbrev task : PdfParseTask
task = record { task_id = codes "t"; resource_id = codes "r"; pdf_url = codes "u" }

parse-IsReported_example : IsReported parser (parse parser task).log (parse parser task).result
parse-IsReported_example = parse-IsReported parser task
