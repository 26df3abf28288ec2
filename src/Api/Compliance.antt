-- ===== src/Api/Compliance.antt =====
-- apps/api/tradesentry_api/compliance_api.py and compliance_store.py.
pub mod Stored
use Prim.Native.String.{◌++◌ as ◌+◌}
use trade_sentry.Prelude.Int.{pos}
use trade_sentry.Prelude.{
  ℕ, String, Bool, true, false, not, Option, none, some, List, [], ◌∷◌, map, find, string_eq, ◌==◌,
  if◌then◌else◌,
}
use trade_sentry.Prelude.Decimal.{Decimal}
use trade_sentry.Contracts.Documents.{
  DocumentType, letter_of_credit, commercial_invoice, bill_of_lading, packing_list,
  insurance_certificate, type_beq,
}
use trade_sentry.Contracts.Fields.{
  Date, LetterOfCreditFields, CommercialInvoiceFields, BillOfLadingFields, PackingListFields,
  InsuranceCertificateFields,
}
use trade_sentry.Contracts.Extraction.{
  ExtractedFields, lc_fields, invoice_fields, bl_fields, packing_fields, insurance_fields,
}
use trade_sentry.Compliance.Model.{
  PresentedDocument, ComplianceCaseFacts, ComplianceResult, parse_lc_requirements,
}
use trade_sentry.Compliance.Engine.{evaluate_compliance}
use trade_sentry.Intake.{StoredDocument, Extraction}
use trade_sentry.Api.{
  ApiHost, Request, Stores, Handler, ◌>>=◌, ◌>>◌, pure, abort, modify, gets, admin, require_roles,
  case_or_404, audit, ucp_rule_executed,
}
use trade_sentry.Api.Documents.{documents_of, found_or_404}

pub record ComplianceRunRequest : Type 0 where
  pub presentation_date : Option Date
  pub drawing_amount : Option Decimal
  pub is_original_transport_document : Bool
  pub is_bulk_or_generic : Bool

-- `_document_of_type`
abbrev pub document_of_type : DocumentType → List StoredDocument → Option StoredDocument
document_of_type t = find (λ d. type_beq d.document_type t)

-- `document.extraction.fields`
abbrev pub fields_in : Option Extraction → Option ExtractedFields
fields_in none = none
fields_in (some e) = some e.result.fields

abbrev pub fields_of : Option StoredDocument → Option ExtractedFields
fields_of none = none
fields_of (some d) = fields_in d.extraction

-- `_fields` for each class
abbrev pub as_lc : Option ExtractedFields → Option LetterOfCreditFields
as_lc (some (lc_fields f)) = some f
as_lc _ = none

abbrev pub as_invoice : Option ExtractedFields → Option CommercialInvoiceFields
as_invoice (some (invoice_fields f)) = some f
as_invoice _ = none

abbrev pub as_bl : Option ExtractedFields → Option BillOfLadingFields
as_bl (some (bl_fields f)) = some f
as_bl _ = none

abbrev pub as_packing : Option ExtractedFields → Option PackingListFields
as_packing (some (packing_fields f)) = some f
as_packing _ = none

abbrev pub as_insurance : Option ExtractedFields → Option InsuranceCertificateFields
as_insurance (some (insurance_fields f)) = some f
as_insurance _ = none

abbrev pub page_refs_of : Option Extraction → List (String × List ℕ)
page_refs_of none = []
page_refs_of (some e) = e.result.page_refs

abbrev pub presented : StoredDocument → PresentedDocument
presented d = record {
  document_id = d.id;
  document_type = d.document_type;
  status = d.status;
  originals_presented = pos 1;
  copies_presented = pos 0;
  page_refs = page_refs_of d.extraction;
}

abbrev pub id_or : (default : String) → Option StoredDocument → String
id_or default none = default
id_or default (some d) = d.id

-- the facts with the fields of the credit
unfoldable pub facts_of :
    (case_id : String)
    → List StoredDocument
    → ComplianceRunRequest
    → (now : ℕ) → LetterOfCreditFields
    → ComplianceCaseFacts
facts_of case_id documents payload now lc =
    let invoice = document_of_type commercial_invoice documents in
    let bl = document_of_type bill_of_lading documents in
    let packing = document_of_type packing_list documents in
    let insurance = document_of_type insurance_certificate documents in
    record {
      case_id = case_id;
      lc = parse_lc_requirements lc;
      presented_documents = map presented documents;
      invoice = as_invoice (fields_of invoice);
      invoice_document_id = id_or "commercial_invoice" invoice;
      bill_of_lading = as_bl (fields_of bl);
      bill_of_lading_document_id = id_or "bill_of_lading" bl;
      packing_list = as_packing (fields_of packing);
      packing_list_document_id = id_or "packing_list" packing;
      insurance = as_insurance (fields_of insurance);
      insurance_document_id = id_or "insurance_certificate" insurance;
      drawing_amount = payload.drawing_amount;
      presentation_date = payload.presentation_date;
      is_original_transport_document = payload.is_original_transport_document;
      is_bulk_or_generic = payload.is_bulk_or_generic;
      evaluated_at = now;
    }

abbrev pub facts_or_422 :
    (case_id : String)
    → List StoredDocument
    → ComplianceRunRequest
    → (now : ℕ) → Option LetterOfCreditFields
    → Handler ComplianceCaseFacts
facts_or_422 case_id documents payload now none =
    abort 422 "Extracted Letter of Credit fields are required"
facts_or_422 case_id documents payload now (some lc) =
    pure (facts_of case_id documents payload now lc)

-- `build_compliance_facts` of a case that is there
unfoldable pub build_compliance_facts :
    (case_id : String) → ComplianceRunRequest → (now : ℕ) → Handler ComplianceCaseFacts
build_compliance_facts case_id payload now = do
  documents ← gets (λ s. documents_of case_id s.documents)
  facts_or_422 case_id documents payload now
      (as_lc (fields_of (document_of_type letter_of_credit documents)))

-- `ComplianceRunRequest()`
abbrev pub default_request : ComplianceRunRequest
default_request = record {
  presentation_date = none;
  drawing_amount = none;
  is_original_transport_document = true;
  is_bulk_or_generic = false;
}

abbrev pub payload_or_default : Option ComplianceRunRequest → ComplianceRunRequest
payload_or_default none = default_request
payload_or_default (some p) = p

-- `self.results[result.case_id] = result`
abbrev pub put_result : ComplianceResult → List ComplianceResult → List ComplianceResult
put_result r [] = r ∷ []
put_result r (x ∷ xs) =
    let rest = put_result r xs in if x.case_id == r.case_id then r ∷ xs else x ∷ rest

abbrev pub get_result : (case_id : String) → List ComplianceResult → Option ComplianceResult
get_result case_id = find (λ r. r.case_id == case_id)

module _ (h : ApiHost) where
  unfoldable pub run_compliance :
      Request → (case_id : String) → Option ComplianceRunRequest → Handler ComplianceResult
  run_compliance r case_id payload = do
    require_roles r.principal (admin ∷ [])
    _ ← case_or_404 r.principal case_id
    facts ← build_compliance_facts case_id (payload_or_default payload) r.now
    let result = evaluate_compliance h.rule_host facts
    modify (λ s. record s { compliance = put_result result s.compliance })
    audit h r ucp_rule_executed case_id ("compliance://" + (case_id + "/evaluation"))
    pure result

  unfoldable pub get_compliance : Request → (case_id : String) → Handler ComplianceResult
  get_compliance r case_id = do
    _ ← case_or_404 r.principal case_id
    found ← gets (λ s. get_result case_id s.compliance)
    found_or_404 "Compliance result not found" found
