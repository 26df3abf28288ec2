-- ===== src/Compliance/Engine/Cited.antt =====
-- The rules that the findings of `evaluate_compliance` cite.
use trade_sentry.Prelude.{Option, none, some, All, is_empty, Bool-cases, inl, inr}
use trade_sentry.Prelude.Sort.{All-sorted}
use trade_sentry.Prelude.Decimal.{Decimal}
use trade_sentry.Contracts.Fields.{
  Date, CommercialInvoiceFields, BillOfLadingFields, InsuranceCertificateFields, PackingListFields,
}
use trade_sentry.Compliance.Model.{ComplianceCaseFacts}
use trade_sentry.Compliance.Finding.{Host}
use trade_sentry.Compliance.CrossDocument.{
  buyer_checks, party_checks, cargo_checks, packing_checks, cross_document_checks,
}
use trade_sentry.Compliance.Completeness.{check_document_completeness}
use trade_sentry.Compliance.Engine.{
  quantity_checks, invoice_checks, period_checks, transport_checks, insurance_checks, all_findings,
  finding_order, complete_result, incomplete_result, evaluate_compliance,
}
use trade_sentry.Compliance.Engine.Approved.{
  IsCited, AllCited, nil-AllCited, join-AllCited, string_check-AllCited, numeric_check-AllCited,
  quantity_check-AllCited, period_check-AllCited, commercial_invoice-AllCited,
  bill_of_lading-AllCited, partial_shipments-AllCited, insurance_check-AllCited,
}

module _ (h : Host) (facts : ComplianceCaseFacts) where
  buyer-AllCited : (i : Option CommercialInvoiceFields) → AllCited (buyer_checks h facts i)
  unfolding buyer_checks
  buyer-AllCited none = nil-AllCited
  buyer-AllCited (some i) = string_check-AllCited h _ _ _ _ _ _

  party-AllCited : (bl : Option BillOfLadingFields) → AllCited (party_checks h facts bl)
  unfolding party_checks
  party-AllCited none = nil-AllCited
  party-AllCited (some bl) =
      join-AllCited (string_check-AllCited h _ _ _ _ _ _) (string_check-AllCited h _ _ _ _ _ _)

  cargo-AllCited :
      (i : Option CommercialInvoiceFields) (bl : Option BillOfLadingFields)
      → AllCited (cargo_checks h facts i bl)
  unfolding cargo_checks
  cargo-AllCited (some i) (some bl) =
      join-AllCited (string_check-AllCited h _ _ _ _ _ _)
        (join-AllCited (numeric_check-AllCited h _ _ _ _ _) (string_check-AllCited h _ _ _ _ _ _))
  cargo-AllCited (some i) none = nil-AllCited
  cargo-AllCited none bl = nil-AllCited

  packing-AllCited :
      (i : Option CommercialInvoiceFields) (p : Option PackingListFields)
      → AllCited (packing_checks h facts i p)
  unfolding packing_checks
  packing-AllCited (some i) (some p) =
      join-AllCited (string_check-AllCited h _ _ _ _ _ _) (numeric_check-AllCited h _ _ _ _ _)
  packing-AllCited (some i) none = nil-AllCited
  packing-AllCited none p = nil-AllCited

  cross_document-AllCited : AllCited (cross_document_checks h facts)
  unfolding cross_document_checks
  cross_document-AllCited =
      join-AllCited (buyer-AllCited _) (
        join-AllCited (party-AllCited _)
          (join-AllCited (cargo-AllCited _ _) (packing-AllCited _ _)))

  quantities-AllCited : (q p i : Option Decimal) → AllCited (quantity_checks h facts q p i)
  unfolding quantity_checks
  quantities-AllCited (some q) (some p) i = quantity_check-AllCited h _ _ _ _ _ _
  quantities-AllCited (some q) none i = nil-AllCited
  quantities-AllCited none p i = nil-AllCited

  invoice-AllCited : (i : Option CommercialInvoiceFields) → AllCited (invoice_checks h facts i)
  unfolding invoice_checks
  invoice-AllCited none = nil-AllCited
  invoice-AllCited (some i) =
      join-AllCited (commercial_invoice-AllCited h _ _ _ _) (quantities-AllCited _ _ _)

  periods-AllCited : (s p e : Option Date) → AllCited (period_checks h facts s p e)
  unfolding period_checks
  periods-AllCited (some s) (some p) (some e) = period_check-AllCited h _ _ _ _ _ _ _
  periods-AllCited (some s) (some p) none = nil-AllCited
  periods-AllCited (some s) none e = nil-AllCited
  periods-AllCited none p e = nil-AllCited

  transport-AllCited : (bl : Option BillOfLadingFields) → AllCited (transport_checks h facts bl)
  unfolding transport_checks
  transport-AllCited none = nil-AllCited
  transport-AllCited (some bl) =
      join-AllCited (bill_of_lading-AllCited h _ _ _)
        (join-AllCited (partial_shipments-AllCited h _ _ _) (periods-AllCited _ _ _))

  insurance-AllCited :
      (i : Option CommercialInvoiceFields) (c : Option InsuranceCertificateFields)
      → AllCited (insurance_checks h facts i c)
  unfolding insurance_checks
  insurance-AllCited (some i) (some c) = insurance_check-AllCited h _ _ _ _ _
  insurance-AllCited (some i) none = nil-AllCited
  insurance-AllCited none c = nil-AllCited

  all_findings-AllCited : AllCited (all_findings h facts)
  unfolding all_findings
  all_findings-AllCited = join-AllCited (invoice-AllCited _) (
      join-AllCited (transport-AllCited _)
        (join-AllCited (insurance-AllCited _ _) cross_document-AllCited))

  pub evaluate-AllCited : All IsCited (evaluate_compliance h facts).findings
  unfolding evaluate_compliance complete_result incomplete_result
  evaluate-AllCited =
      elim (Bool-cases
        (is_empty (check_document_completeness h facts.lc facts.presented_documents))) [
          | inl e ↦
              rw e
                (All-sorted finding_order IsCited (all_findings h facts) all_findings-AllCited.each)
          | inr e ↦ rw e tt
        ]
