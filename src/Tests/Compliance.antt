-- ===== src/Tests/Compliance.antt =====
-- The checks and the engine of the UCP rules at concrete cases.
use trade_sentry.Prelude.Int.{◌+ℤ◌}
use trade_sentry.Prelude.{
  ◌≤◌, ◌≡◌, refl, ◌↔◌, true, some, none, [], ◌∷◌, All, any, arith, ◌*◌, ◌+◌, ◌-◌,
}
use trade_sentry.Prelude.Decimal.{decimal}
use trade_sentry.Compliance.Model.{is_material_finding, compliant, discrepancy}
use trade_sentry.Compliance.Amounts.{check_credit_amount_tolerance}
use trade_sentry.Compliance.Amounts.Bands.{credit_check-nil_iff, percent}
use trade_sentry.Compliance.Period.{check_presentation_period}
use trade_sentry.Compliance.Period.Deadlines.{default_limit, period_check-nil_iff}
use trade_sentry.Compliance.Completeness.{check_document_completeness}
use trade_sentry.Compliance.Completeness.Gate.{IsMet, completeness_check-nil_iff}
use trade_sentry.Compliance.Engine.{evaluate_compliance, all_findings}
use trade_sentry.Compliance.Engine.Results.{evaluate-compliant_iff, evaluate-late_presentation}
use trade_sentry.Compliance.Engine.Order.{IsOrdered, evaluate-findings-IsOrdered}
use trade_sentry.Compliance.Model.{ComplianceCaseFacts}
use trade_sentry.Contracts.Fields.{CommercialInvoiceFields, InsuranceCertificateFields}
use trade_sentry.Tests.Data.{
  plain_host, invoice_presented, credit_terms, late_case, empty_case, lading,
}

late_case-IsMet : All (IsMet late_case.presented_documents) late_case.lc.required_documents
unfolding IsMet ◌+ℤ◌
late_case-IsMet = ((λ _. (refl, omega arith, omega arith)), tt)

empty_case-unmet : ¬ All (IsMet empty_case.presented_documents) empty_case.lc.required_documents
unfolding IsMet ◌+ℤ◌
empty_case-unmet m = ground (arith, (m.0 refl).0)

credit_check-nil_iff_example :
    (check_credit_amount_tolerance plain_host
        (decimal 1000 2)
        (decimal 1050 2)
        (decimal 1050 2)
        true
        "D1"
        none
      ≡ [])
    ↔ ((1000 * (100 - percent true) ≤ 1050 * 100)
        × (1050 * 100 ≤ 1000 * (100 + percent true))
        × (1050 * 100 ≤ 1000 * (100 + percent true)))
credit_check-nil_iff_example = credit_check-nil_iff plain_host "D1" none 1000 1050 1050 2 true

period_check-nil_iff_example :
    (check_presentation_period plain_host true 690 705 730 none "D2" none ≡ [])
    ↔ ((true ≡ true → 705 ≤ 690 + 21) × (705 ≤ 730))
period_check-nil_iff_example =
    period_check-nil_iff plain_host "D2" none true 690 705 730 default_limit

completeness_check-nil_iff_example :
    (check_document_completeness plain_host credit_terms (invoice_presented ∷ []) ≡ [])
    ↔ All (IsMet (invoice_presented ∷ [])) credit_terms.required_documents
completeness_check-nil_iff_example =
    completeness_check-nil_iff plain_host (invoice_presented ∷ []) credit_terms

-- more pieces than the credit names, insured for no more than they cost
abbrev full_invoice : CommercialInvoiceFields
full_invoice = record {
  invoice_number = none;
  invoice_date = none;
  seller = none;
  buyer = none;
  currency = none;
  invoice_amount = some (decimal 90_000 2);
  quantity = some (decimal 12 0);
  unit = none;
  unit_price = none;
  goods_description = none;
  hs_code = none;
  incoterms = none;
  country_of_origin = none;
  loading_port = none;
  discharge_port = none;
  vessel_name = none;
}

abbrev full_insurance : InsuranceCertificateFields
full_insurance = record {
  policy_number = none;
  certificate_number = none;
  date = none;
  insured_party = none;
  insurer = none;
  insured_amount = some (decimal 90_000 2);
  currency = some "USD";
  coverage_type = none;
  risks_covered = none;
  vessel_name = none;
  voyage = none;
  loading_port = none;
  discharge_port = none;
  goods_description = none;
  effective_date = none;
}

abbrev full_case : ComplianceCaseFacts
full_case = record late_case {
  lc = record credit_terms { quantity = some (decimal 10 0) };
  invoice = some full_invoice;
  insurance = some full_insurance;
}

evaluate-compliant_iff_example :
    ((evaluate_compliance plain_host late_case).overall_status ≡ compliant) ↔ (
      All (IsMet late_case.presented_documents) late_case.lc.required_documents
      × (all_findings plain_host late_case ≡ []))
evaluate-compliant_iff_example = evaluate-compliant_iff plain_host late_case

evaluate-late_presentation_example :
    (any is_material_finding (evaluate_compliance plain_host late_case).findings ≡ true)
    × ((evaluate_compliance plain_host late_case).overall_status ≡ discrepancy)
evaluate-late_presentation_example =
    evaluate-late_presentation plain_host late_case lading 690 736 730 late_case-IsMet refl refl
      refl refl (omega arith)

evaluate-findings-IsOrdered_example : IsOrdered (evaluate_compliance plain_host late_case).findings
evaluate-findings-IsOrdered_example =
    evaluate-findings-IsOrdered plain_host late_case late_case-IsMet
