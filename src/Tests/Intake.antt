-- ===== src/Tests/Intake.antt =====
-- The intake of a concrete document.
use trade_sentry.Prelude.{◌≤◌, ◌≡◌, String, true, false, none, some, [], length}
use trade_sentry.Prelude.Text.{is_text, codes}
use trade_sentry.Prelude.Decimal.{decimal}
use trade_sentry.Contracts.Documents.{uploaded, unknown}
use trade_sentry.Investigation.World.{returned, raised}
use trade_sentry.Intake.{RawOcrResult, StoredDocument}
use trade_sentry.Intake.Upload.{UploadHost, pdf, sanitize_filename}
use trade_sentry.Intake.Upload.Names.{IsSafe, sanitize_filename-IsSafe}
use trade_sentry.Intake.Extract.{ExtractHost}
use trade_sentry.Intake.Process.{IntakeWorld, process}
use trade_sentry.Intake.Process.Terminal.{progress_of, IsSettled, process-IsSettled}

abbrev upload_host : UploadHost
upload_host = record { pdf_pages = λ b. some 1; path_name = λ s. s; lower = λ s. s }

abbrev extract_host : ExtractHost
extract_host = record {
  lower = λ s. s;
  isdigit = λ c. false;
  decimal_of = λ s. none;
  int_of = λ s. 0;
  model_validate = λ t v. none;
}

abbrev raw : RawOcrResult
raw = record {
  full_text = "bill of lading";
  query_results = [];
  overall_confidence = decimal 9 1;
  low_confidence_pages = [];
  job_id = none;
}

-- every service answers but the audit of the extraction
abbrev intake_world : IntakeWorld
intake_world = record {
  upload_host = upload_host;
  extract_host = extract_host;
  save_document = λ d. returned tt;
  audit = λ d e s. returned tt;
  page_count = λ m. returned 1;
  analyze_document = λ k t n. returned raw;
  reextract = λ r t. raised "RuntimeError";
  injection_fingerprint = λ s. none;
}

abbrev scan : StoredDocument
scan = record {
  id = "D1";
  case_id = "C-1";
  filename = "scan 1.pdf";
  content_hash = "h";
  mime_type = "application/pdf";
  s3_key = "k";
  status = uploaded;
  document_type = unknown;
  overall_confidence = none;
  extraction = none;
  textract_job_id = none;
  error_code = none;
  advisory = none;
  created_at = 0;
}

process-IsSettled_example :
    let q : StoredDocument = (progress_of (process intake_world scan)).document in
    IsSettled q.status q
process-IsSettled_example = process-IsSettled intake_world scan

sanitize_filename-IsSafe_example :
    let name : String = sanitize_filename upload_host (some "../a b.pdf") pdf in
    IsSafe name × (is_text name ≡ true) × (length (codes name) ≤ 180)
sanitize_filename-IsSafe_example = sanitize_filename-IsSafe upload_host (some "../a b.pdf") pdf
