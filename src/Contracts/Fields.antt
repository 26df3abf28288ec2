-- ===== src/Contracts/Fields.antt =====
-- The typed field sets of models/contracts.py. A date is its ordinal day number.
use trade_sentry.Prelude.{ℕ, String, Bool, Option, List}
use trade_sentry.Prelude.Int.{ℤ}
use trade_sentry.Prelude.Decimal.{Decimal}
use trade_sentry.Contracts.Documents.{DocumentType}

abbrev pub Date : Type 0
Date = ℕ

pub record RequiredDocumentSpec : Type 0 where
  pub document_type : DocumentType
  pub description : Option String
  pub required : Bool
  pub originals_required : ℤ
  pub copies_required : ℤ
  pub additional_conditions : List String

pub record LetterOfCreditFields : Type 0 where
  pub lc_number : Option String
  pub issuing_bank : Option String
  pub applicant : Option String
  pub beneficiary : Option String
  pub credit_amount : Option Decimal
  pub currency : Option String
  pub about_flag : Option Bool
  pub expiry_date : Option Date
  pub latest_shipment_date : Option Date
  pub credit_specific_presentation_days : Option ℤ
  pub loading_port : Option String
  pub discharge_port : Option String
  pub incoterms : Option String
  pub goods_description : Option String
  pub quantity : Option Decimal
  pub unit : Option String
  pub partial_shipments_allowed : Option Bool
  pub required_documents : List RequiredDocumentSpec
  pub special_conditions : List String

pub record CommercialInvoiceFields : Type 0 where
  pub invoice_number : Option String
  pub invoice_date : Option Date
  pub seller : Option String
  pub buyer : Option String
  pub currency : Option String
  pub invoice_amount : Option Decimal
  pub quantity : Option Decimal
  pub unit : Option String
  pub unit_price : Option Decimal
  pub goods_description : Option String
  pub hs_code : Option String
  pub incoterms : Option String
  pub country_of_origin : Option String
  pub loading_port : Option String
  pub discharge_port : Option String
  pub vessel_name : Option String

pub record BillOfLadingFields : Type 0 where
  pub bl_number : Option String
  pub bl_date : Option Date
  pub vessel_name : Option String
  pub imo_number : Option String
  pub voyage_number : Option String
  pub carrier : Option String
  pub shipper : Option String
  pub consignee : Option String
  pub notify_party : Option String
  pub loading_port : Option String
  pub discharge_port : Option String
  pub on_board_notation : Option Bool
  pub on_board_date : Option Date
  pub goods_description : Option String
  pub quantity : Option Decimal
  pub unit : Option String
  pub hs_code : Option String
  pub freight_terms : Option String
  pub carrier_or_master_signature : Option Bool
  pub partial_shipment_indicated : Option Bool

pub record PackingLineItem : Type 0 where
  pub description : Option String
  pub quantity : Option Decimal
  pub unit : Option String
  pub gross_weight : Option Decimal
  pub net_weight : Option Decimal
  pub packages : Option ℤ

pub record PackingListFields : Type 0 where
  pub seller : Option String
  pub buyer : Option String
  pub line_items : List PackingLineItem
  pub total_quantity : Option Decimal
  pub total_gross_weight : Option Decimal
  pub total_packages : Option ℤ

pub record InsuranceCertificateFields : Type 0 where
  pub policy_number : Option String
  pub certificate_number : Option String
  pub date : Option Date
  pub insured_party : Option String
  pub insurer : Option String
  pub insured_amount : Option Decimal
  pub currency : Option String
  pub coverage_type : Option String
  pub risks_covered : Option String
  pub vessel_name : Option String
  pub voyage : Option String
  pub loading_port : Option String
  pub discharge_port : Option String
  pub goods_description : Option String
  pub effective_date : Option Date
