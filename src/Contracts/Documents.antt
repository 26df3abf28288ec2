-- ===== src/Contracts/Documents.antt =====
-- The enumerations of models/contracts.py.
use trade_sentry.Prelude.{ℕ, String, ◌≡◌, ◌↔◌, Bool, true, false, List, [], ◌∷◌, arith, Eq, nat_beq}

pub data DocumentType : Type 0 where
  letter_of_credit commercial_invoice bill_of_lading packing_list : DocumentType
  certificate_of_origin insurance_certificate inspection_certificate unknown : DocumentType

abbrev pub type_value : DocumentType → String
type_value letter_of_credit = "letter_of_credit"
type_value commercial_invoice = "commercial_invoice"
type_value bill_of_lading = "bill_of_lading"
type_value packing_list = "packing_list"
type_value certificate_of_origin = "certificate_of_origin"
type_value insurance_certificate = "insurance_certificate"
type_value inspection_certificate = "inspection_certificate"
type_value unknown = "unknown"

-- `list(DocumentType)`
abbrev pub document_types : List DocumentType
document_types =
    letter_of_credit ∷ commercial_invoice ∷ bill_of_lading ∷ packing_list ∷ certificate_of_origin
    ∷ insurance_certificate ∷ inspection_certificate ∷ unknown ∷ []

abbrev type_rank : DocumentType → ℕ
type_rank letter_of_credit = 0
type_rank commercial_invoice = 1
type_rank bill_of_lading = 2
type_rank packing_list = 3
type_rank certificate_of_origin = 4
type_rank insurance_certificate = 5
type_rank inspection_certificate = 6
type_rank unknown = 7

abbrev pub type_beq : DocumentType → DocumentType → Bool
type_beq a b = nat_beq (type_rank a) (type_rank b)

pub type_beq_iff : (a b : DocumentType) → (type_beq a b ≡ true) ↔ (a ≡ b)
type_beq_iff a b = ground arith

instance abbrev pub type_eq : Eq DocumentType
type_eq = record { beq = type_beq; beq_iff = type_beq_iff }

pub data DocumentStatus : Type 0 where
  uploaded classified queued extracting extracted partially failed missing : DocumentStatus

-- `status is DocumentStatus.EXTRACTED`
abbrev pub is_extracted : DocumentStatus → Bool
is_extracted extracted = true
is_extracted _ = false

-- `status in {DocumentStatus.EXTRACTED, DocumentStatus.PARTIAL}`
abbrev pub is_readable : DocumentStatus → Bool
is_readable extracted = true
is_readable partially = true
is_readable _ = false

pub data CompletenessStatus : Type 0 where
  complete incomplete pending_lc : CompletenessStatus

abbrev pub is_complete : CompletenessStatus → Bool
is_complete complete = true
is_complete _ = false

pub record DocumentCompleteness : Type 0 where
  pub required_types : List DocumentType
  pub present_types : List DocumentType
  pub missing_types : List DocumentType
  pub status : CompletenessStatus
  pub can_run_investigation : Bool
