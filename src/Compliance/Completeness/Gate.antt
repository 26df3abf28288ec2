-- ===== src/Compliance/Completeness/Gate.antt =====
-- When the document set counts as complete.
use trade_sentry.Prelude.{
  String, ◌≡◌, refl, ◌↔◌, true, false, List, [], ◌∷◌, ◌++◌, All, is_empty, arith,
}
use trade_sentry.Prelude.Int.{◌≤ℤ◌}
use trade_sentry.Prelude.Sort.{sorted, sorted-nil_iff, All-sorted, All-of_sorted}
use trade_sentry.Contracts.Fields.{RequiredDocumentSpec}
use trade_sentry.Compliance.Model.{LcRequirements, PresentedDocument}
use trade_sentry.Compliance.Finding.{Host}
use trade_sentry.Compliance.Completeness.{
  extracted_documents, of_type, total, type_order, text_order, missing_of, all_missing,
  check_document_completeness,
}

-- A required document is there: extracted documents of its type, with enough originals and copies.
abbrev pub IsMet : List PresentedDocument → RequiredDocumentSpec → Type 0
IsMet presented spec =
    let matching = of_type spec.document_type (extracted_documents presented) in
    spec.required ≡ true
    → (is_empty matching ≡ false)
      × (spec.originals_required ≤ℤ total (λ d. d.originals_presented) matching)
      × (spec.copies_required ≤ℤ total (λ d. d.copies_presented) matching)

append-nil_iff : (xs ys : List String) → (xs ++ ys ≡ []) ↔ ((xs ≡ []) × (ys ≡ []))
append-nil_iff [] ys = ground arith
append-nil_iff (x ∷ xs) ys = ground arith

module _ (h : Host) (presented : List PresentedDocument) where
  missing_of-nil_iff :
      (spec : RequiredDocumentSpec)
      → (missing_of h spec (of_type spec.document_type (extracted_documents presented)) ≡ [])
        ↔ IsMet presented spec
  unfolding missing_of
  missing_of-nil_iff spec = ground arith

  all_missing-nil_iff :
      (specs : List RequiredDocumentSpec)
      → (all_missing h specs (extracted_documents presented) ≡ []) ↔ All (IsMet presented) specs
  unfolding all_missing
  all_missing-nil_iff [] = (λ _. tt, λ _. refl)
  all_missing-nil_iff (spec ∷ specs) =
      let both =
        append-nil_iff
          (missing_of h spec (of_type spec.document_type (extracted_documents presented)))
          (all_missing h specs (extracted_documents presented)) in
      let this = missing_of-nil_iff spec in
      let rest = all_missing-nil_iff specs in
      (λ e. (this.0 (both.0 e).0, rest.0 (both.0 e).1), λ m. both.1 (this.1 m.0, rest.1 m.1))

  -- No document is reported missing exactly when every document that the credit requires is among
  -- the extracted documents, with at least the required numbers of originals and copies.
  pub completeness_check-nil_iff :
      (lc : LcRequirements)
      → (check_document_completeness h lc presented ≡ [])
        ↔ All (IsMet presented) lc.required_documents
  unfolding check_document_completeness
  completeness_check-nil_iff lc =
      let required = lc.required_documents in
      let outer =
        sorted-nil_iff text_order
          (all_missing h (sorted type_order required) (extracted_documents presented)) in
      let inner = all_missing-nil_iff (sorted type_order required) in
      (
        λ e. All-of_sorted type_order (IsMet presented) required (inner.0 (outer.0 e)),
        λ m. outer.1 (inner.1 (All-sorted type_order (IsMet presented) required m)),
      )
