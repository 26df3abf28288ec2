-- ===== src/Compliance/Engine.antt =====
-- rules/engine.py: `evaluate_compliance`.
pub mod Results
pub mod Collected
pub mod Approved
pub mod Cited
pub mod Order
use trade_sentry.Prelude.{
  String, Bool, true, false, Option, none, some, List, [], ◌∷◌, ◌++◌, map, if◌then◌else◌, is_empty,
  ◌==◌, string_eq,
}
use trade_sentry.Prelude.Decimal.{Decimal, le, is_nonzero}
use trade_sentry.Prelude.Text.{codes, le_codes, eq_codes}
use trade_sentry.Prelude.Sort.{sorted}
use trade_sentry.Contracts.Documents.{commercial_invoice, bill_of_lading}
use trade_sentry.Contracts.Fields.{
  Date, CommercialInvoiceFields, BillOfLadingFields, InsuranceCertificateFields,
}
use trade_sentry.Compliance.Model.{
  ComplianceFinding, ComplianceResult, compliant, discrepancy, incomplete, ComplianceCaseFacts,
  rule_definitions,
}
use trade_sentry.Compliance.Finding.{Host}
use trade_sentry.Compliance.Amounts.{check_quantity_tolerance, upper_bound, amount_tolerance}
use trade_sentry.Compliance.Period.{check_presentation_period}
use trade_sentry.Compliance.Papers.{
  shipment_date_of, check_commercial_invoice, check_bill_of_lading, check_insurance,
  check_partial_shipments,
}
use trade_sentry.Compliance.CrossDocument.{page, cross_document_checks}
use trade_sentry.Compliance.Completeness.{check_document_completeness}

-- `Decimal or None` as a truth value
abbrev pub drawn : Option Decimal → Option Decimal → Option Decimal
drawn none invoice_amount = invoice_amount
drawn (some d) invoice_amount = if is_nonzero d then some d else invoice_amount

-- whether the drawing stays within the credit, for the quantity tolerance
unfoldable pub within_credit : (drawing credit : Option Decimal) → (about_flag : Bool) → Bool
unfolding le upper_bound
within_credit none credit about = true
within_credit (some d) none about = true
within_credit (some d) (some c) about = le d (upper_bound c (amount_tolerance about))

module _ (h : Host) (facts : ComplianceCaseFacts) where
  open facts use {lc}

  unfoldable pub quantity_checks :
      (lc_quantity presented_quantity invoice_amount : Option Decimal) → List ComplianceFinding
  quantity_checks (some expected) (some presented) invoice_amount =
      check_quantity_tolerance h expected presented facts.is_bulk_or_generic
        (within_credit (drawn facts.drawing_amount invoice_amount) lc.credit_amount lc.about_flag)
        facts.invoice_document_id (page facts commercial_invoice "quantity")
  quantity_checks _ _ invoice_amount = []

  unfoldable pub invoice_checks : Option CommercialInvoiceFields → List ComplianceFinding
  invoice_checks none = []
  invoice_checks (some invoice) =
      check_commercial_invoice h lc invoice facts.drawing_amount facts.invoice_document_id
      ++ quantity_checks lc.quantity invoice.quantity invoice.invoice_amount

  unfoldable pub period_checks :
      (shipment presentation expiry : Option Date) → List ComplianceFinding
  period_checks (some shipment) (some presentation) (some expiry) =
      check_presentation_period h facts.is_original_transport_document shipment presentation expiry
        lc.credit_specific_presentation_days facts.bill_of_lading_document_id
        (page facts bill_of_lading "on_board_date")
  period_checks _ _ _ = []

  unfoldable pub transport_checks : Option BillOfLadingFields → List ComplianceFinding
  transport_checks none = []
  transport_checks (some bl) =
      check_bill_of_lading h lc bl facts.bill_of_lading_document_id
      ++ (check_partial_shipments h lc bl facts.bill_of_lading_document_id
          ++ period_checks (shipment_date_of bl) facts.presentation_date lc.expiry_date)

  unfoldable pub insurance_checks :
      Option CommercialInvoiceFields → Option InsuranceCertificateFields → List ComplianceFinding
  insurance_checks (some invoice) (some insurance) =
      check_insurance h lc invoice insurance facts.bill_of_lading facts.insurance_document_id
  insurance_checks _ _ = []

  -- what `evaluate_compliance` collects once no document is missing
  unfoldable pub all_findings : List ComplianceFinding
  all_findings =
      invoice_checks facts.invoice
      ++ (transport_checks facts.bill_of_lading
          ++ (insurance_checks facts.invoice facts.insurance ++ cross_document_checks h facts))

-- the order of the keys (rule_id, document_id, field_name, actual, finding_id)
abbrev pub le_keys : List String → List String → Bool
le_keys [] _ = true
le_keys (x ∷ xs) [] = false
le_keys (x ∷ xs) (y ∷ ys) =
    let rest = le_keys xs ys in
    if eq_codes (codes x) (codes y) then rest else le_codes (codes x) (codes y)

abbrev pub sort_key : ComplianceFinding → List String
sort_key f = f.rule_id ∷ f.document_id ∷ f.field_name ∷ f.actual ∷ f.finding_id ∷ []

abbrev pub finding_order : ComplianceFinding → ComplianceFinding → Bool
finding_order a b = le_keys (sort_key a) (sort_key b)

abbrev pub rule_versions : List (String × String)
rule_versions = map (λ d. (d.rule_id, d.version)) rule_definitions

unfoldable pub complete_result : ComplianceCaseFacts → List ComplianceFinding → ComplianceResult
complete_result facts findings = record {
  case_id = facts.case_id;
  is_complete = true;
  missing_documents = [];
  findings = findings;
  overall_status = if is_empty findings then compliant else discrepancy;
  evaluated_at = facts.evaluated_at;
  rule_versions_used = rule_versions;
}

unfoldable pub incomplete_result : ComplianceCaseFacts → List String → ComplianceResult
incomplete_result facts missing = record {
  case_id = facts.case_id;
  is_complete = false;
  missing_documents = missing;
  findings = [];
  overall_status = incomplete;
  evaluated_at = facts.evaluated_at;
  rule_versions_used = [];
}

unfoldable pub evaluate_compliance : Host → ComplianceCaseFacts → ComplianceResult
evaluate_compliance h facts =
    let missing = check_document_completeness h facts.lc facts.presented_documents in
    if is_empty missing
    then complete_result facts (sorted finding_order (all_findings h facts))
    else incomplete_result facts missing
