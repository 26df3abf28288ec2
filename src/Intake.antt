-- ===== src/Intake.antt =====
-- The intake of documents: apps/api/tradesentry_api/documents.py and processor.py. Floats are
-- decimals.
pub mod Upload
pub mod Extract
pub mod Process
use trade_sentry.Prelude.{ℕ, String, Option, List}
use trade_sentry.Prelude.Decimal.{Decimal}
use trade_sentry.Contracts.Documents.{DocumentType, DocumentStatus}
use trade_sentry.Contracts.Extraction.{ExtractionResult}

-- A field's value: a text, or what it was coerced to.
pub data Value : Type 0 where
  text_value : String → Value
  decimal_value : Decimal → Value
  int_value : ℕ → Value

pub record QueryAnswer : Type 0 where
  pub answer : String
  pub confidence : Decimal
  pub page : ℕ

-- The fields of `RawOCRResult` that the processor reads.
pub record RawOcrResult : Type 0 where
  pub full_text : String
  pub query_results : List (String × QueryAnswer)
  pub overall_confidence : Decimal
  pub low_confidence_pages : List ℕ
  pub job_id : Option String

-- `ExtractionResult` with its confidences and status.
pub record Extraction : Type 0 where
  pub result : ExtractionResult
  pub confidence : List (String × QueryAnswer)
  pub overall_confidence : Decimal
  pub processing_status : DocumentStatus

-- `DocumentRecord`
pub record StoredDocument : Type 0 where
  pub id : String
  pub case_id : String
  pub filename : String
  pub content_hash : String
  pub mime_type : String
  pub s3_key : String
  pub status : DocumentStatus
  pub document_type : DocumentType
  pub overall_confidence : Option Decimal
  pub extraction : Option Extraction
  pub textract_job_id : Option String
  pub error_code : Option String
  pub advisory : Option String
  pub created_at : ℕ
