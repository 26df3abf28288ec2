-- ===== src/Compliance/Model.antt =====
-- models/compliance.py and rules/definitions.py with rules/config/ucp600_rules.json, and rules/parser.py.
use trade_sentry.Prelude.{ℕ, String, Bool, true, false, Option, some, List, [], ◌∷◌, map}
use trade_sentry.Prelude.Int.{ℤ, pos}
use trade_sentry.Prelude.Decimal.{Decimal, decimal}
use trade_sentry.Contracts.Documents.{DocumentType, DocumentStatus}
use trade_sentry.Contracts.Fields.{
  Date, RequiredDocumentSpec, LetterOfCreditFields, CommercialInvoiceFields, BillOfLadingFields,
  PackingListFields, InsuranceCertificateFields,
}

pub record LcRequirements : Type 0 where
  pub lc_number : Option String
  pub issuing_bank : Option String
  pub applicant : Option String
  pub beneficiary : Option String
  pub credit_amount : Option Decimal
  pub currency : Option String
  pub about_flag : Bool
  pub expiry_date : Option Date
  pub latest_shipment_date : Option Date
  pub credit_specific_presentation_days : Option ℤ
  pub partial_shipments_allowed : Bool
  pub required_documents : List RequiredDocumentSpec
  pub special_conditions : List String
  pub goods_description : Option String
  pub quantity : Option Decimal
  pub unit : Option String
  pub loading_port : Option String
  pub discharge_port : Option String

abbrev pub is_true : Option Bool → Bool
is_true (some true) = true
is_true _ = false

abbrev is_not_false : Option Bool → Bool
is_not_false (some false) = false
is_not_false _ = true

unfoldable pub parse_lc_requirements : LetterOfCreditFields → LcRequirements
parse_lc_requirements f = record {
  lc_number = f.lc_number;
  issuing_bank = f.issuing_bank;
  applicant = f.applicant;
  beneficiary = f.beneficiary;
  credit_amount = f.credit_amount;
  currency = f.currency;
  about_flag = is_true f.about_flag;
  expiry_date = f.expiry_date;
  latest_shipment_date = f.latest_shipment_date;
  credit_specific_presentation_days = f.credit_specific_presentation_days;
  partial_shipments_allowed = is_not_false f.partial_shipments_allowed;
  required_documents = f.required_documents;
  special_conditions = f.special_conditions;
  goods_description = f.goods_description;
  quantity = f.quantity;
  unit = f.unit;
  loading_port = f.loading_port;
  discharge_port = f.discharge_port;
}

pub record RuleDefinition : Type 0 where
  pub rule_id : String
  pub ucp_article : String
  pub version : String
  pub enabled : Bool

-- The keys that the checks pass to `rule`.
pub data Rule : Type 0 where
  art14c art14d art18 art20 art28 art30a art30b art30c art31 : Rule

abbrev defined : String → String → RuleDefinition
defined i a = record { rule_id = i; ucp_article = a; version = "1.0.0"; enabled = true }

-- `rule(rule_id)`: the entry of the configuration file. Every key has one.
abbrev pub rule : Rule → RuleDefinition
rule art14c = defined "UCP600-ART14C-PRESENTATION-PERIOD" "Art. 14(c)"
rule art14d = defined "UCP600-ART14D-DATA-CONSISTENCY" "Art. 14(d)"
rule art18 = defined "UCP600-ART18-COMMERCIAL-INVOICE" "Art. 18"
rule art20 = defined "UCP600-ART20-BILL-OF-LADING" "Art. 20"
rule art28 = defined "UCP600-ART28-INSURANCE" "Art. 28"
rule art30a = defined "UCP600-ART30A-AMOUNT-TOLERANCE" "Art. 30(a) / Art. 18"
rule art30b = defined "UCP600-ART30B-QUANTITY-TOLERANCE" "Art. 30(b)"
rule art30c = defined "UCP600-ART30C-DRAWING-LIMIT" "Art. 30(c)"
rule art31 = defined "UCP600-ART31-PARTIAL-SHIPMENTS" "Art. 31"

-- `rule_definitions().values()`, in the order of their identifiers
abbrev pub rule_definitions : List RuleDefinition
rule_definitions =
    map rule (art14c ∷ art14d ∷ art18 ∷ art20 ∷ art28 ∷ art30a ∷ art30b ∷ art30c ∷ art31 ∷ [])

-- The parameters of the configuration file.
abbrev pub default_transport_presentation_days : ℤ
default_transport_presentation_days = pos 21

abbrev pub fuzzy_advisory_threshold : Decimal
fuzzy_advisory_threshold = decimal 82 2

abbrev pub minimum_coverage_ratio : Decimal
minimum_coverage_ratio = decimal 110 2

abbrev pub about_tolerance : Decimal
about_tolerance = decimal 10 2

abbrev pub bulk_tolerance : Decimal
bulk_tolerance = decimal 5 2

pub data Severity : Type 0 where
  material review potentially_waivable advisory : Severity

abbrev pub is_material : Severity → Bool
is_material material = true
is_material _ = false

abbrev pub is_waivable : Severity → Bool
is_waivable potentially_waivable = true
is_waivable _ = false

-- The two shapes of the `evidence` dictionary.
pub data Evidence : Type 0 where
  typed_extraction : (document_id field_name : String) (page_ref : Option ℕ) → Evidence
  cross_document_comparison :
      (expected actual : String) (similarity : Decimal) (page_ref : Option ℕ) → Evidence

pub record ComplianceFinding : Type 0 where
  pub finding_id : String
  pub rule_id : String
  pub ucp_article : String
  pub document_id : String
  pub field_name : String
  pub page_ref : Option ℕ
  pub expected : String
  pub actual : String
  pub severity : Severity
  pub evidence : Evidence
  pub rule_version : String

abbrev pub is_material_finding : ComplianceFinding → Bool
is_material_finding f = is_material f.severity

pub data ComplianceStatus : Type 0 where
  compliant discrepancy incomplete : ComplianceStatus

pub record ComplianceResult : Type 0 where
  pub case_id : String
  pub is_complete : Bool
  pub missing_documents : List String
  pub findings : List ComplianceFinding
  pub overall_status : ComplianceStatus
  pub evaluated_at : ℕ
  pub rule_versions_used : List (String × String)

pub record PresentedDocument : Type 0 where
  pub document_id : String
  pub document_type : DocumentType
  pub status : DocumentStatus
  pub originals_presented : ℤ
  pub copies_presented : ℤ
  pub page_refs : List (String × List ℕ)

pub record ComplianceCaseFacts : Type 0 where
  pub case_id : String
  pub lc : LcRequirements
  pub presented_documents : List PresentedDocument
  pub invoice : Option CommercialInvoiceFields
  pub invoice_document_id : String
  pub bill_of_lading : Option BillOfLadingFields
  pub bill_of_lading_document_id : String
  pub packing_list : Option PackingListFields
  pub packing_list_document_id : String
  pub insurance : Option InsuranceCertificateFields
  pub insurance_document_id : String
  pub drawing_amount : Option Decimal
  pub presentation_date : Option Date
  pub is_original_transport_document : Bool
  pub is_bulk_or_generic : Bool
  pub evaluated_at : ℕ
