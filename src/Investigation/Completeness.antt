-- ===== src/Investigation/Completeness.antt =====
-- investigation_orchestrator.py: `_completeness`.
pub mod Complete
use trade_sentry.Prelude.{
  Bool, false, not, Option, none, some, List, [], ◌∷◌, map, keep, find, elem, is_empty,
  if◌then◌else◌,
}
use trade_sentry.Prelude.Sort.{sorted}
use trade_sentry.Prelude.Text.{codes, le_codes}
use trade_sentry.Contracts.Documents.{
  DocumentType, unknown, letter_of_credit, type_value, type_beq, type_eq, document_types,
  DocumentCompleteness, complete, incomplete, pending_lc, is_readable,
}
use trade_sentry.Contracts.Fields.{RequiredDocumentSpec}
use trade_sentry.Contracts.Extraction.{ExtractionResult, ExtractedFields, lc_fields}
use trade_sentry.Investigation.Model.{DocumentSummary}

abbrev by_value : DocumentType → DocumentType → Bool
by_value a b = le_codes (codes (type_value a)) (codes (type_value b))

-- the types of the documents that were read, as a set
abbrev pub completed_types : List DocumentSummary → List DocumentType
completed_types [] = []
completed_types (d ∷ ds) =
    let rest = completed_types ds in if is_readable d.status then d.document_type ∷ rest else rest

abbrev pub lc_extraction : List ExtractionResult → Option ExtractionResult
lc_extraction = find (λ e. type_beq e.document_type letter_of_credit)

-- The types that the credit asks for; all types but UNKNOWN if it lists none.
unfoldable pub required_types : List RequiredDocumentSpec → List DocumentType
required_types [] = keep (λ t. not (type_beq t unknown)) document_types
required_types (spec ∷ specs) = map (λ x. x.document_type) (keep (λ x. x.required) (spec ∷ specs))

abbrev present_types : List DocumentSummary → List DocumentType
present_types documents =
    sorted by_value (keep (λ t. elem t (completed_types documents)) document_types)

abbrev pub pending : List DocumentSummary → DocumentCompleteness
pending documents = record {
  required_types = [];
  present_types = present_types documents;
  missing_types = [];
  status = pending_lc;
  can_run_investigation = false;
}

abbrev pub judged : List DocumentSummary → List DocumentType → DocumentCompleteness
judged documents required =
    let missing = keep (λ t. not (elem t (completed_types documents))) required in
    record {
      required_types = required;
      present_types = present_types documents;
      missing_types = missing;
      status = if is_empty missing then complete else incomplete;
      can_run_investigation = is_empty missing;
    }

abbrev pub with_fields : List DocumentSummary → ExtractedFields → DocumentCompleteness
with_fields documents (lc_fields f) = judged documents (required_types f.required_documents)
with_fields documents _ = pending documents

abbrev pub of_credit : List DocumentSummary → Option ExtractionResult → DocumentCompleteness
of_credit documents none = pending documents
of_credit documents (some e) = with_fields documents e.fields

-- `_completeness`
unfoldable pub completeness_of : List DocumentSummary → List ExtractionResult → DocumentCompleteness
completeness_of documents extractions = of_credit documents (lc_extraction extractions)
