-- ===== src/Tests/Data.antt =====
-- Concrete cases, services and registrations.
use trade_sentry.Prelude.Int.{pos}
use trade_sentry.Prelude.{String, true, false, none, some, List, [], ◌∷◌}
use trade_sentry.Prelude.Decimal.{decimal}
use trade_sentry.Contracts.Documents.{
  letter_of_credit, commercial_invoice, bill_of_lading, extracted,
}
use trade_sentry.Contracts.Fields.{LetterOfCreditFields, RequiredDocumentSpec, BillOfLadingFields}
use trade_sentry.Contracts.Extraction.{DocumentRecord, ExtractionResult, lc_fields, bl_fields}
use trade_sentry.Compliance.Model.{LcRequirements, PresentedDocument, ComplianceCaseFacts}
use trade_sentry.Compliance.Finding.{Host, Phrase, text}
use trade_sentry.Dna.{TransactionDna}
use trade_sentry.CrossIbu.Model.{
  RegistrySignal, RegistryRegistration, MatchHost, CrossIbuMatch, exact,
}
use trade_sentry.Fraud.{SanctionsScreeningResult}
use trade_sentry.Investigation.Model.{DocumentSummary, InvestigationState, initial_state}
use trade_sentry.Investigation.World.{World, returned, raised}

abbrev show_phrase : Phrase → String
show_phrase (text s) = s
show_phrase _ = "value"

-- no two texts that differ are similar
abbrev pub plain_host : Host
plain_host = record {
  casefold = λ s. s;
  ratio = λ a b. decimal 0 0;
  str = show_phrase;
  stable_id = λ r d f e a p. r;
}

-- texts are either the same or half alike, in hundredths
abbrev pub plain_match_host : MatchHost
plain_match_host = record {
  half = 50;
  token_sort_ratio = λ a b. 50;
  match_digest = λ c r t. c;
  registration_digest = λ i f. f;
}

abbrev pub invoice_spec : RequiredDocumentSpec
invoice_spec = record {
  document_type = commercial_invoice;
  description = none;
  required = true;
  originals_required = pos 1;
  copies_required = pos 0;
  additional_conditions = [];
}

abbrev pub credit_terms : LcRequirements
credit_terms = record {
  lc_number = some "LC-1";
  issuing_bank = none;
  applicant = none;
  beneficiary = some "ACME";
  credit_amount = some (decimal 100_000 2);
  currency = some "USD";
  about_flag = false;
  expiry_date = some 730;
  latest_shipment_date = some 700;
  credit_specific_presentation_days = none;
  partial_shipments_allowed = true;
  required_documents = invoice_spec ∷ [];
  special_conditions = [];
  goods_description = none;
  quantity = none;
  unit = none;
  loading_port = none;
  discharge_port = none;
}

abbrev pub invoice_presented : PresentedDocument
invoice_presented = record {
  document_id = "D1";
  document_type = commercial_invoice;
  status = extracted;
  originals_presented = pos 1;
  copies_presented = pos 0;
  page_refs = [];
}

abbrev pub lading : BillOfLadingFields
lading = record {
  bl_number = some "BL-1";
  bl_date = none;
  vessel_name = none;
  imo_number = none;
  voyage_number = none;
  carrier = none;
  shipper = none;
  consignee = none;
  notify_party = none;
  loading_port = none;
  discharge_port = none;
  on_board_notation = some true;
  on_board_date = some 690;
  goods_description = none;
  quantity = none;
  unit = none;
  hs_code = none;
  freight_terms = none;
  carrier_or_master_signature = some true;
  partial_shipment_indicated = some false;
}

-- presented six days after the expiry date
abbrev pub late_case : ComplianceCaseFacts
late_case = record {
  case_id = "C-1";
  lc = credit_terms;
  presented_documents = invoice_presented ∷ [];
  invoice = none;
  invoice_document_id = "D1";
  bill_of_lading = some lading;
  bill_of_lading_document_id = "D2";
  packing_list = none;
  packing_list_document_id = "D3";
  insurance = none;
  insurance_document_id = "D4";
  drawing_amount = none;
  presentation_date = some 736;
  is_original_transport_document = true;
  is_bulk_or_generic = false;
  evaluated_at = 0;
}

abbrev pub empty_case : ComplianceCaseFacts
empty_case = record late_case { presented_documents = [] }

abbrev pub signal_of : (ibu_id case_id : String) → RegistrySignal
signal_of ibu_id case_id = record {
  ibu_id = ibu_id;
  case_id = case_id;
  transaction_id = case_id;
  dna_fingerprint = "F-1";
  bl_number_normalized = some "BL1";
  vessel_normalized = some "EVER";
  voyage_normalized = none;
  exporter_normalized = some "ACME";
  loading_port_unlocode = none;
  discharge_port_unlocode = none;
  shipment_date_iso = some 690;
  commodity_normalized = none;
  quantity_canonical = none;
  unit_canonical = none;
}

-- the same exporter's next shipment
abbrev pub other_shipment : RegistryRegistration
other_shipment = record {
  signal = record (signal_of "HK" "C-9") {
    dna_fingerprint = "F-9";
    bl_number_normalized = some "BL9";
    vessel_normalized = some "MAERSK";
    shipment_date_iso = some 720;
  };
  registration_id = "R-9";
  registered_at = 0;
  ttl = 10;
}

abbrev pub exact_match : CrossIbuMatch
exact_match = record {
  match_id = "M-1";
  querying_ibu_id = "SG";
  querying_case_id = "C-1";
  matched_registration_id = some "R-1";
  matched_ibu_id = some "HK";
  match_level = exact;
  similarity_score = 1_000_000;
  matched_fields = [];
  explanation = "";
  is_false_positive_candidate = false;
  evidence_ref = none;
  queried_at = 0;
}

abbrev pub matched_state : InvestigationState
matched_state = record (initial_state "C-1" "SG" 12) { cross_ibu_matches = exact_match ∷ [] }

-- every service is down
abbrev pub silent_world : List DocumentRecord → World
silent_world documents = record {
  host = plain_host;
  match_host = plain_match_host;
  default_tool_budget = 12;
  now = λ n. 0;
  called_at = λ n. 0;
  duration_ms = λ n. 0;
  inputs_hash = λ c f. c;
  list_documents = λ c. documents;
  compliance_facts = λ c. raised "TimeoutError";
  save_compliance = λ r. raised "TimeoutError";
  transaction_dna = λ c i e t. raised "TimeoutError";
  find_candidates = λ q. raised "TimeoutError";
  plan = λ c. raised "TimeoutError";
  run_price_benchmark = λ d. raised "TimeoutError";
  run_vessel_verification = λ d. raised "TimeoutError";
  run_entity_verification = λ d. raised "TimeoutError";
  run_sanctions_screening = λ d. raised "TimeoutError";
}

abbrev pub scanned_invoice : DocumentRecord
scanned_invoice = record {
  id = "D1";
  document_type = commercial_invoice;
  status = extracted;
  overall_confidence = none;
  extraction = none;
}

abbrev pub plain_dna : TransactionDna
plain_dna = record {
  transaction_id = "T-1";
  case_id = "C-1";
  presenting_ibu = "SG";
  raw_exporter = none;
  raw_importer = none;
  raw_bl_number = none;
  raw_vessel_name = none;
  raw_voyage_number = none;
  raw_loading_port = none;
  raw_discharge_port = none;
  raw_shipment_date = none;
  raw_commodity = none;
  raw_hs_code = none;
  raw_quantity = none;
  raw_quantity_unit = none;
  raw_invoice_value = none;
  raw_currency = none;
  raw_lc_number = none;
  raw_invoice_number = none;
  exporter_normalized = none;
  importer_normalized = none;
  bl_number_normalized = none;
  vessel_normalized = none;
  imo_number = none;
  voyage_normalized = none;
  loading_port_unlocode = none;
  discharge_port_unlocode = none;
  shipment_date_iso = none;
  commodity_normalized = none;
  hs_code_canonical = none;
  quantity_canonical = none;
  unit_canonical = none;
  invoice_value_usd = none;
  unit_value_usd_per_unit = none;
  dna_fingerprint = "F-1";
  source_documents = [];
  normalization_methods = [];
  confidence_flags = [];
  conflicts = [];
  created_at = 0;
}

abbrev pub credit_fields : LetterOfCreditFields
credit_fields = record {
  lc_number = none;
  issuing_bank = none;
  applicant = none;
  beneficiary = none;
  credit_amount = none;
  currency = none;
  about_flag = none;
  expiry_date = none;
  latest_shipment_date = none;
  credit_specific_presentation_days = none;
  loading_port = none;
  discharge_port = none;
  incoterms = none;
  goods_description = none;
  quantity = none;
  unit = none;
  partial_shipments_allowed = none;
  required_documents = invoice_spec ∷ [];
  special_conditions = [];
}

abbrev pub credit_extraction : ExtractionResult
credit_extraction = record {
  document_id = "D0";
  document_type = letter_of_credit;
  fields = lc_fields credit_fields;
  page_refs = [];
  extraction_flags = [];
}

abbrev pub lading_extraction : ExtractionResult
lading_extraction = record {
  document_id = "D2";
  document_type = bill_of_lading;
  fields = bl_fields lading;
  page_refs = [];
  extraction_flags = [];
}

abbrev pub invoice_summary : DocumentSummary
invoice_summary = record {
  document_id = "D1";
  document_type = commercial_invoice;
  status = extracted;
  overall_confidence = none;
}

abbrev scanned_credit : DocumentRecord
scanned_credit = record {
  id = "D0";
  document_type = letter_of_credit;
  status = extracted;
  overall_confidence = none;
  extraction = some credit_extraction;
}

-- a case whose bill of lading has not been read
abbrev clean_case : ComplianceCaseFacts
clean_case = record late_case { bill_of_lading = none }

abbrev no_hits : SanctionsScreeningResult
no_hits = record { screened_entities = []; human_determination_required = true }

-- the mandatory services answer, and the planner does not
abbrev pub clean_world : World
clean_world = record (silent_world (scanned_credit ∷ scanned_invoice ∷ [])) {
  compliance_facts = λ c. returned clean_case;
  save_compliance = λ r. returned tt;
  transaction_dna = λ c i e t. returned plain_dna;
  run_sanctions_screening = λ d. returned no_hits;
}
