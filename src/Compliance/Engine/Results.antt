-- ===== src/Compliance/Engine/Results.antt =====
-- The overall status and the findings of `evaluate_compliance`.
use mathlib.Core.Bool.{false≢true}
use trade_sentry.Prelude.{
  ◌<◌, String, ◌≡◌, refl, sym, ◌∙◌, ◌↔◌, inl, inr, Bool, true, false, some, List, [], ◌∷◌, All, any,
  any-append_left, any-append_right, if◌then◌else◌, is_empty, arith, Bool-cases,
}
use trade_sentry.Prelude.Sort.{sorted, sorted-nil_iff, any-sorted}
use trade_sentry.Contracts.Fields.{Date, BillOfLadingFields}
use trade_sentry.Compliance.Model.{
  ComplianceCaseFacts, ComplianceFinding, compliant, discrepancy, incomplete, is_material_finding,
}
use trade_sentry.Compliance.Finding.{Host}
use trade_sentry.Compliance.Completeness.{check_document_completeness}
use trade_sentry.Compliance.Completeness.Gate.{IsMet, completeness_check-nil_iff}
use trade_sentry.Contracts.Documents.{bill_of_lading}
use trade_sentry.Compliance.CrossDocument.{page}
use trade_sentry.Compliance.Period.Deadlines.{late_check}
use trade_sentry.Compliance.Papers.{shipment_date_of, check_bill_of_lading, check_partial_shipments}
use trade_sentry.Compliance.Engine.{
  evaluate_compliance, all_findings, finding_order, period_checks, transport_checks, invoice_checks,
  complete_result, incomplete_result,
}

is_empty_iff : (xs : List String) → (is_empty xs ≡ true) ↔ (xs ≡ [])
is_empty_iff [] = ground arith
is_empty_iff (x ∷ xs) = ground arith

status-nil :
    (fs : List ComplianceFinding)
    → (if is_empty fs then compliant else discrepancy) ≡ compliant
    → fs ≡ []
status-nil fs = ground arith

nil-status :
    (fs : List ComplianceFinding)
    → fs ≡ []
    → (if is_empty fs then compliant else discrepancy) ≡ compliant
nil-status fs = ground arith

module _ (h : Host) (facts : ComplianceCaseFacts) where
  open facts use {lc, presented_documents}

  not-IsMet :
      is_empty (check_document_completeness h lc presented_documents) ≡ false
      → ¬ All (IsMet presented_documents) lc.required_documents
  not-IsMet e met =
      false≢true
        (sym e ∙ (is_empty_iff _).1 ((completeness_check-nil_iff h presented_documents lc).1 met))

  pub evaluate_complete :
      All (IsMet presented_documents) lc.required_documents
      → evaluate_compliance h facts
        ≡ complete_result facts (sorted finding_order (all_findings h facts))
  unfolding evaluate_compliance
  evaluate_complete met =
      rw ((is_empty_iff _).1 ((completeness_check-nil_iff h presented_documents lc).1 met)) refl

  evaluate_incomplete :
      ¬ All (IsMet presented_documents) lc.required_documents
      → evaluate_compliance h facts
        ≡ incomplete_result facts (check_document_completeness h lc presented_documents)
  unfolding evaluate_compliance
  evaluate_incomplete unmet =
      elim (Bool-cases (is_empty (check_document_completeness h lc presented_documents))) [
        | inl e ↦
            absurd (
              unmet
                ((completeness_check-nil_iff h presented_documents lc).0 ((is_empty_iff _).0 e)))
        | inr e ↦ rw e refl
      ]

  -- While a required document is missing, the status is INCOMPLETE and no field is checked.
  pub evaluate-incomplete_stops :
      ¬ All (IsMet presented_documents) lc.required_documents
      → ((evaluate_compliance h facts).overall_status ≡ incomplete)
        × ((evaluate_compliance h facts).findings ≡ [])
        × ((evaluate_compliance h facts).is_complete ≡ false)
  unfolding incomplete_result
  evaluate-incomplete_stops unmet = rw (evaluate_incomplete unmet) (refl, refl, refl)

  -- The status is COMPLIANT exactly when every required document is there and no check has a finding.
  pub evaluate-compliant_iff :
      ((evaluate_compliance h facts).overall_status ≡ compliant)
      ↔ (All (IsMet presented_documents) lc.required_documents × (all_findings h facts ≡ []))
  unfolding complete_result incomplete_result
  evaluate-compliant_iff =
      elim (Bool-cases (is_empty (check_document_completeness h lc presented_documents))) [
        | inl e ↦
            let met =
              (completeness_check-nil_iff h presented_documents lc).0 ((is_empty_iff _).0 e) in
            let none_left = sorted-nil_iff finding_order (all_findings h facts) in
            rw (evaluate_complete met)
              (λ s. (met, none_left.0 (status-nil _ s)), λ both. nil-status _ (none_left.1 both.1))
        | inr e ↦
            let unmet = not-IsMet e in
            rw (evaluate_incomplete unmet) (λ s. cc, λ both. absurd (unmet both.0))
      ]

  any-findings :
      (p : ComplianceFinding → Bool)
      → All (IsMet presented_documents) lc.required_documents
      → any p (evaluate_compliance h facts).findings ≡ any p (all_findings h facts)
  unfolding complete_result
  any-findings p met =
      rw (evaluate_complete met) (any-sorted finding_order p (all_findings h facts))

  any-not-compliant :
      (fs : List ComplianceFinding) (p : ComplianceFinding → Bool)
      → any p fs ≡ true
      → (if is_empty fs then compliant else discrepancy) ≡ discrepancy
  any-not-compliant [] p e = cc
  any-not-compliant (f ∷ fs) p e = refl

  late_transport :
      (bl : BillOfLadingFields) (shipment presentation expiry : Date)
      → shipment_date_of bl ≡ some shipment
      → facts.presentation_date ≡ some presentation
      → lc.expiry_date ≡ some expiry
      → expiry < presentation
      → any is_material_finding (transport_checks h facts (some bl)) ≡ true
  unfolding transport_checks period_checks
  late_transport bl s p e hs hp he late =
      any-append_right is_material_finding
        (check_bill_of_lading h lc bl facts.bill_of_lading_document_id) _
        (any-append_right is_material_finding
          (check_partial_shipments h lc bl facts.bill_of_lading_document_id) _
          (simp (hs, hp, he)
            (late_check h facts.is_original_transport_document s p e
              lc.credit_specific_presentation_days facts.bill_of_lading_document_id
              (page facts bill_of_lading "on_board_date") late)))

  any-status :
      (p : ComplianceFinding → Bool)
      → All (IsMet presented_documents) lc.required_documents
      → any p (all_findings h facts) ≡ true
      → (evaluate_compliance h facts).overall_status ≡ discrepancy
  unfolding complete_result
  any-status p met e = rw (evaluate_complete met) (
      any-not-compliant (sorted finding_order (all_findings h facts)) p
        (any-sorted finding_order p (all_findings h facts) ∙ e))

  -- When every required document is there, the bill of lading gives a shipment date and a
  -- presentation and an expiry date are known, a presentation after the expiry date yields a
  -- material finding, whatever the other checks find, and the status DISCREPANCY.
  pub evaluate-late_presentation :
      (bl : BillOfLadingFields) (shipment presentation expiry : Date)
      → All (IsMet presented_documents) lc.required_documents
      → facts.bill_of_lading ≡ some bl
      → shipment_date_of bl ≡ some shipment
      → facts.presentation_date ≡ some presentation
      → lc.expiry_date ≡ some expiry
      → expiry < presentation
      → (any is_material_finding (evaluate_compliance h facts).findings ≡ true)
        × ((evaluate_compliance h facts).overall_status ≡ discrepancy)
  unfolding all_findings
  evaluate-late_presentation bl s p e met hb hs hp he late =
      let found : any is_material_finding (all_findings h facts) ≡ true =
        any-append_right is_material_finding (invoice_checks h facts facts.invoice) _ (
          any-append_left is_material_finding (transport_checks h facts facts.bill_of_lading) _
            (simp hb (late_transport bl s p e hs hp he late))) in
      (any-findings is_material_finding met ∙ found, any-status is_material_finding met found)
