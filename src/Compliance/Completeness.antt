-- ===== src/Compliance/Completeness.antt =====
-- rules/engine.py: `check_document_completeness`.
pub mod Gate
use trade_sentry.Prelude.{String, Bool, not, List, [], ◌∷◌, ◌++◌, if◌then◌else◌, keep, is_empty}
use trade_sentry.Prelude.Int.{ℤ, pos, ◌+ℤ◌, ltb_ℤ}
use trade_sentry.Prelude.Text.{codes, le_codes}
use trade_sentry.Prelude.Sort.{sorted}
use trade_sentry.Contracts.Documents.{DocumentType, type_value, type_eq, type_beq, is_extracted}
use trade_sentry.Contracts.Fields.{RequiredDocumentSpec}
use trade_sentry.Compliance.Model.{LcRequirements, PresentedDocument}
use trade_sentry.Compliance.Finding.{Host, absent, few_originals, few_copies, one_if}

-- `extracted`
abbrev pub extracted_documents : List PresentedDocument → List PresentedDocument
extracted_documents = keep (λ d. is_extracted d.status)

abbrev pub of_type : DocumentType → List PresentedDocument → List PresentedDocument
of_type t = keep (λ d. type_beq d.document_type t)

abbrev pub type_order : RequiredDocumentSpec → RequiredDocumentSpec → Bool
type_order a b = le_codes (codes (type_value a.document_type)) (codes (type_value b.document_type))

abbrev pub text_order : String → String → Bool
text_order a b = le_codes (codes a) (codes b)

-- `sum`
abbrev pub total : (PresentedDocument → ℤ) → List PresentedDocument → ℤ
total count [] = pos 0
total count (d ∷ ds) = count d +ℤ total count ds

module _ (h : Host) where
  open h use {str}

  -- the body of the loop, for one required document that has matching documents
  unfoldable pub shortfalls : RequiredDocumentSpec → List PresentedDocument → List String
  shortfalls spec matching =
      let originals = total (λ d. d.originals_presented) matching in
      let copies = total (λ d. d.copies_presented) matching in
      one_if (ltb_ℤ originals spec.originals_required)
        (str (few_originals spec.document_type originals spec.originals_required))
      ++ one_if (ltb_ℤ copies spec.copies_required)
          (str (few_copies spec.document_type copies spec.copies_required))

  unfoldable pub missing_of : RequiredDocumentSpec → List PresentedDocument → List String
  unfolding shortfalls
  missing_of spec matching =
      if not spec.required
      then []
      else if is_empty matching
      then str (absent spec.document_type) ∷ []
      else shortfalls spec matching

  unfoldable pub all_missing : List RequiredDocumentSpec → List PresentedDocument → List String
  unfolding missing_of
  all_missing [] extracted = []
  all_missing (spec ∷ specs) extracted =
      missing_of spec (of_type spec.document_type extracted) ++ all_missing specs extracted

  unfoldable pub check_document_completeness : LcRequirements → List PresentedDocument → List String
  unfolding all_missing sorted
  check_document_completeness lc presented =
      sorted text_order
        (all_missing (sorted type_order lc.required_documents) (extracted_documents presented))
