-- ===== src/Dna.antt =====
-- models/dna.py. A value in ISO text form that the code compares as a date is its day number.
pub mod Text
pub mod Normalization
pub mod Conflicts
pub mod Papers
pub mod Builder
pub mod Transaction
use trade_sentry.Prelude.{ℕ, String, Option, List}
use trade_sentry.Prelude.Decimal.{Decimal}
use trade_sentry.Contracts.Fields.{Date}

pub data ConflictSeverity : Type 0 where
  material advisory : ConflictSeverity

pub record ConflictRecord : Type 0 where
  pub field_name : String
  pub document_a_id : String
  pub document_a_value : String
  pub document_b_id : String
  pub document_b_value : String
  pub severity : ConflictSeverity

pub record TransactionDna : Type 0 where
  pub transaction_id : String
  pub case_id : String
  pub presenting_ibu : String
  pub raw_exporter : Option String
  pub raw_importer : Option String
  pub raw_bl_number : Option String
  pub raw_vessel_name : Option String
  pub raw_voyage_number : Option String
  pub raw_loading_port : Option String
  pub raw_discharge_port : Option String
  pub raw_shipment_date : Option String
  pub raw_commodity : Option String
  pub raw_hs_code : Option String
  pub raw_quantity : Option Decimal
  pub raw_quantity_unit : Option String
  pub raw_invoice_value : Option Decimal
  pub raw_currency : Option String
  pub raw_lc_number : Option String
  pub raw_invoice_number : Option String
  pub exporter_normalized : Option String
  pub importer_normalized : Option String
  pub bl_number_normalized : Option String
  pub vessel_normalized : Option String
  pub imo_number : Option String
  pub voyage_normalized : Option String
  pub loading_port_unlocode : Option String
  pub discharge_port_unlocode : Option String
  pub shipment_date_iso : Option Date
  pub commodity_normalized : Option String
  pub hs_code_canonical : Option String
  pub quantity_canonical : Option Decimal
  pub unit_canonical : Option String
  pub invoice_value_usd : Option Decimal
  pub unit_value_usd_per_unit : Option Decimal
  pub dna_fingerprint : String
  pub source_documents : List (String × String)
  pub normalization_methods : List (String × String)
  pub confidence_flags : List String
  pub conflicts : List ConflictRecord
  pub created_at : ℕ
