-- ===== src/Prototype.antt =====
-- rules/ucp600.py: the findings of the prototype rules and what the rules take from the library.
pub mod Tolerances
pub mod Period
pub mod Invoice
pub mod Lading
pub mod Signature
pub mod Consistency
pub mod Completeness
pub mod Risk
pub mod Gate
pub mod Ui
pub mod Matching
use trade_sentry.Prelude.{ℕ, String, Bool, true, false, List, [], ◌∷◌, if◌then◌else◌}
use trade_sentry.Prelude.Int.{ℤ}
use trade_sentry.Prelude.Decimal.{Decimal}
use trade_sentry.Contracts.Fields.{Date}

pub data Severity : Type 0 where
  material review potentially_waivable advisory : Severity

-- A value of the dictionary `evidence`; `fraction` is a similarity in units of the host's `full`.
pub data Detail : Type 0 where
  text : String → Detail
  flag : Bool → Detail
  days : ℤ → Detail
  fraction : ℕ → Detail

pub record Finding : Type 0 where
  pub rule_id : String
  pub ucp_article : String
  pub field_name : String
  pub expected : String
  pub actual : String
  pub severity : Severity
  pub evidence : List (String × Detail)
  pub rule_version : String

-- `lower`, `upper`, `str` of decimals, dates and whole numbers, a similarity or a factor as a
-- percentage, and RapidFuzz's `token_sort_ratio`, a multiple of `1 / full` of 100.
pub record PrototypeHost : Type 0 where
  pub lower : String → String
  pub upper : String → String
  pub str : Decimal → String
  pub show_date : Date → String
  pub show_int : ℤ → String
  pub percent : (similarity : ℕ) → String
  pub factor_percent : Decimal → String
  pub full : ℕ
  pub token_sort_ratio : String → String → ℕ

abbrev pub rule_version : String
rule_version = "UCP600-2007"

-- a finding with the default version
abbrev pub found :
    (rule_id ucp_article field_name expected actual : String)
    → Severity
    → List (String × Detail)
    → Finding
found rule_id ucp_article field_name expected actual severity evidence = record {
  rule_id = rule_id;
  ucp_article = ucp_article;
  field_name = field_name;
  expected = expected;
  actual = actual;
  severity = severity;
  evidence = evidence;
  rule_version = rule_version;
}

-- an `if` that appends a finding
abbrev pub when : Bool → Finding → List Finding
when b f = if b then f ∷ [] else []
