-- ===== src/Compliance/Consistency.antt =====
-- rules/checks.py: `check_string_consistency` and `check_numeric_consistency`.
pub mod Grading
use trade_sentry.Prelude.{ℕ, String, Option, none, some, List, [], ◌∷◌, if◌then◌else◌}
use trade_sentry.Prelude.Decimal.{Decimal, le, eq}
use trade_sentry.Prelude.Text.{eq_codes}
use trade_sentry.Compliance.Model.{
  Rule, art14d, Severity, material, advisory, cross_document_comparison, ComplianceFinding,
  fuzzy_advisory_threshold,
}
use trade_sentry.Compliance.Finding.{Host, finding, plain_finding, normalize, text, amount}

module _ (h : Host) where
  open h use {ratio}

  abbrev pub similarity : String → String → Decimal
  similarity expected actual = ratio (normalize h expected) (normalize h actual)

  unfoldable pub similarity_severity : Decimal → Severity
  unfolding le
  similarity_severity r = if le fuzzy_advisory_threshold r then advisory else material

  -- Both texts are there: the comparison of their normal forms.
  unfoldable pub compare_texts :
      (expected actual document_id field_name : String) → Rule → Option ℕ → List ComplianceFinding
  unfolding finding similarity_severity
  compare_texts expected actual document_id field_name r page_ref =
      if eq_codes (normalize h expected) (normalize h actual)
      then []
      else finding h r document_id field_name (text expected) (text actual)
          (similarity_severity (similarity expected actual)) page_ref
          (cross_document_comparison expected actual (similarity expected actual) page_ref)
        ∷ []

  unfoldable pub check_string_consistency :
      (expected actual : Option String)
      → (document_id field_name : String) → Rule
      → Option ℕ
      → List ComplianceFinding
  unfolding compare_texts
  check_string_consistency none actual document_id field_name r page_ref = []
  check_string_consistency (some e) none document_id field_name r page_ref = []
  check_string_consistency (some e) (some a) document_id field_name r page_ref =
      compare_texts e a document_id field_name r page_ref

  unfoldable pub check_numeric_consistency :
      (expected actual : Option Decimal)
      → (document_id field_name : String) → Option ℕ
      → List ComplianceFinding
  check_numeric_consistency none actual document_id field_name page_ref = []
  check_numeric_consistency (some e) none document_id field_name page_ref = []
  check_numeric_consistency (some e) (some a) document_id field_name page_ref =
      if eq e a
      then []
      else plain_finding h art14d document_id field_name (amount e) (amount a) material page_ref
        ∷ []
