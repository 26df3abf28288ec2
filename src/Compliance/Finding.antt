-- ===== src/Compliance/Finding.antt =====
-- rules/checks.py: what the checks take from Python's library, and `_finding` and `_normalize`.
use trade_sentry.Prelude.{ℕ, String, Bool, Option, List, [], ◌∷◌, if◌then◌else◌}
use trade_sentry.Prelude.Int.{ℤ}
use trade_sentry.Prelude.Decimal.{Decimal}
use trade_sentry.Prelude.Text.{codes, words}
use trade_sentry.Contracts.Documents.{DocumentType}
use trade_sentry.Contracts.Fields.{Date}
use trade_sentry.Compliance.Model.{
  Rule, rule, Severity, Evidence, typed_extraction, ComplianceFinding,
}

-- The values and messages that the checks pass to `str` or format.
pub data Phrase : Type 0 where
  text : String → Phrase
  amount : Decimal → Phrase
  flag : Bool → Phrase
  day : Date → Phrase
  span : (lower upper : Decimal) → Phrase
  at_most at_least : Decimal → Phrase
  no_later : Date → Phrase
  within_days : ℤ → Phrase
  elapsed_days : ℤ → Phrase
  presented_by : Date → Phrase
  absent : DocumentType → Phrase
  few_originals few_copies : DocumentType → ℤ → ℤ → Phrase

-- Python's `str.casefold`, `difflib.SequenceMatcher(None, a, b).ratio()`, `str` with the format
-- strings, and the first digits of the SHA-256 of the JSON text of a finding.
pub record Host : Type 0 where
  pub casefold : List ℕ → List ℕ
  pub ratio : List ℕ → List ℕ → Decimal
  pub str : Phrase → String
  pub stable_id : (rule_id document_id field_name expected actual : String) → Option ℕ → String

abbrev pub one_if {ℓ} : {A : Type ℓ} → Bool → A → List A
one_if b a = if b then a ∷ [] else []

module _ (h : Host) where
  open h use {casefold, str, stable_id}

  unfoldable pub finding :
      Rule
      → (document_id field_name : String) → (expected actual : Phrase) → Severity
      → (page_ref : Option ℕ) → Evidence
      → ComplianceFinding
  finding r document_id field_name expected actual severity page_ref evidence = record {
    finding_id =
        stable_id (rule r).rule_id document_id field_name (str expected) (str actual) page_ref;
    rule_id = (rule r).rule_id;
    ucp_article = (rule r).ucp_article;
    document_id = document_id;
    field_name = field_name;
    page_ref = page_ref;
    expected = str expected;
    actual = str actual;
    severity = severity;
    evidence = evidence;
    rule_version = (rule r).version;
  }

  -- `_finding` without an `evidence` argument
  unfoldable pub plain_finding :
      Rule
      → (document_id field_name : String) → (expected actual : Phrase) → Severity
      → (page_ref : Option ℕ) → ComplianceFinding
  unfolding finding
  plain_finding r document_id field_name expected actual severity page_ref =
      finding r document_id field_name expected actual severity page_ref
        (typed_extraction document_id field_name page_ref)

  unfoldable pub normalize : String → List ℕ
  unfolding words
  normalize value = words (casefold (codes value))
