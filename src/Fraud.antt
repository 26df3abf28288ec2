-- ===== src/Fraud.antt =====
-- models/fraud_tbml.py. Floats are decimals.
pub mod Common
pub mod Price
pub mod Vessel
pub mod Entity
pub mod Sanctions
pub mod Runner
use trade_sentry.Prelude.{ℕ, String, Bool, Option, List}
use trade_sentry.Prelude.Decimal.{Decimal}
use trade_sentry.Contracts.Fields.{Date}

pub data PriceSignal : Type 0 where
  normal review significant_anomaly data_unavailable : PriceSignal

pub data VesselStatus : Type 0 where
  consistent anomaly data_unavailable : VesselStatus

pub data EntityStatus : Type 0 where
  verified unverified suspicious : EntityStatus

pub data SanctionsStatus : Type 0 where
  no_match possible_match confirmed_source_match data_unavailable : SanctionsStatus

-- `ProvenanceModel`
pub record Provenance : Type 0 where
  pub data_source : String
  pub source_version : String
  pub retrieved_at : ℕ
  pub caveats : List String

pub record PriceBenchmarkResult : Type 0 where
  pub provenance : Provenance
  pub open provenance use *
  pub hs_code : String
  pub trade_corridor : String
  pub period : String
  pub reference_min : Option Decimal
  pub reference_p25 : Option Decimal
  pub reference_p50 : Option Decimal
  pub reference_p75 : Option Decimal
  pub reference_p90 : Option Decimal
  pub invoice_unit_value : Decimal
  pub currency : String
  pub deviation_from_p50_pct : Option Decimal
  pub signal : PriceSignal
  pub methodology_note : String
  pub confidence : Decimal

pub record VesselVerificationResult : Type 0 where
  pub provenance : Provenance
  pub open provenance use *
  pub vessel_name : String
  pub imo_number : Option String
  pub voyage_number : String
  pub stated_port : String
  pub stated_date : Date
  pub verification_result : VesselStatus
  pub details : String
  pub confidence : Decimal

pub record EntityVerificationResult : Type 0 where
  pub provenance : Provenance
  pub open provenance use *
  pub raw_name : String
  pub normalized_name : String
  pub country : String
  pub entity_type : String
  pub verification_status : EntityStatus
  pub known_relationships : List String
  pub confidence : Decimal

pub record EntityScreenResult : Type 0 where
  pub provenance : Provenance
  pub open provenance use *
  pub input_name : String
  pub normalized_name : String
  pub match_status : SanctionsStatus
  pub matched_list : Option String
  pub match_score : Decimal
  pub match_rationale : String
  pub list_date : Date

pub record SanctionsScreeningResult : Type 0 where
  pub screened_entities : List EntityScreenResult
  pub human_determination_required : Bool
