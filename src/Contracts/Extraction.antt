-- ===== src/Contracts/Extraction.antt =====
-- `ExtractionResult` of models/contracts.py, and the part of `DocumentRecord` of
-- apps/api/tradesentry_api/documents.py that the investigation reads.
use trade_sentry.Prelude.{ℕ, String, Option, List}
use trade_sentry.Prelude.Decimal.{Decimal}
use trade_sentry.Contracts.Documents.{DocumentType, DocumentStatus}
use trade_sentry.Contracts.Fields.{
  LetterOfCreditFields, CommercialInvoiceFields, BillOfLadingFields, PackingListFields,
  InsuranceCertificateFields,
}

-- `fields`, by its class; `other_fields` is any other class or a plain dictionary.
pub data ExtractedFields : Type 0 where
  lc_fields : LetterOfCreditFields → ExtractedFields
  invoice_fields : CommercialInvoiceFields → ExtractedFields
  bl_fields : BillOfLadingFields → ExtractedFields
  packing_fields : PackingListFields → ExtractedFields
  insurance_fields : InsuranceCertificateFields → ExtractedFields
  other_fields : ExtractedFields

pub record ExtractionResult : Type 0 where
  pub document_id : String
  pub document_type : DocumentType
  pub fields : ExtractedFields
  pub page_refs : List (String × List ℕ)
  pub extraction_flags : List String

pub record DocumentRecord : Type 0 where
  pub id : String
  pub document_type : DocumentType
  pub status : DocumentStatus
  pub overall_confidence : Option Decimal
  pub extraction : Option ExtractionResult
