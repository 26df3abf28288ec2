-- ===== src/CrossIbu/Model.antt =====
-- models/cross_ibu.py and cross_ibu/registry.py.
use trade_sentry.Prelude.{ℕ, ◌+◌, ◌*◌, String, Bool, Option, List}
use trade_sentry.Prelude.Decimal.{Decimal}
use trade_sentry.Contracts.Fields.{Date}
use trade_sentry.Dna.{TransactionDna}

pub data MatchLevel : Type 0 where
  exact near contextual nothing : MatchLevel

pub record RegistrySignal : Type 0 where
  pub ibu_id : String
  pub case_id : String
  pub transaction_id : String
  pub dna_fingerprint : String
  pub bl_number_normalized : Option String
  pub vessel_normalized : Option String
  pub voyage_normalized : Option String
  pub exporter_normalized : Option String
  pub loading_port_unlocode : Option String
  pub discharge_port_unlocode : Option String
  pub shipment_date_iso : Option Date
  pub commodity_normalized : Option String
  pub quantity_canonical : Option Decimal
  pub unit_canonical : Option String

-- A registration is a signal with three more fields. Times are whole seconds.
pub record RegistryRegistration : Type 0 where
  pub signal : RegistrySignal
  pub open signal use *
  pub registration_id : String
  pub registered_at : ℕ
  pub ttl : ℕ

-- `similarity_score` is in millionths.
pub record CrossIbuMatch : Type 0 where
  pub match_id : String
  pub querying_ibu_id : String
  pub querying_case_id : String
  pub matched_registration_id : Option String
  pub matched_ibu_id : Option String
  pub match_level : MatchLevel
  pub similarity_score : ℕ
  pub matched_fields : List String
  pub explanation : String
  pub is_false_positive_candidate : Bool
  pub evidence_ref : Option String
  pub queried_at : ℕ

unfoldable pub signal_from_dna : TransactionDna → RegistrySignal
signal_from_dna dna = record {
  ibu_id = dna.presenting_ibu;
  case_id = dna.case_id;
  transaction_id = dna.transaction_id;
  dna_fingerprint = dna.dna_fingerprint;
  bl_number_normalized = dna.bl_number_normalized;
  vessel_normalized = dna.vessel_normalized;
  voyage_normalized = dna.voyage_normalized;
  exporter_normalized = dna.exporter_normalized;
  loading_port_unlocode = dna.loading_port_unlocode;
  discharge_port_unlocode = dna.discharge_port_unlocode;
  shipment_date_iso = dna.shipment_date_iso;
  commodity_normalized = dna.commodity_normalized;
  quantity_canonical = dna.quantity_canonical;
  unit_canonical = dna.unit_canonical;
}

-- What the matcher takes from other code: floats from 0.0 to 1.0 are multiples of 1 / (2 * half), for
-- some `half`, as RapidFuzz gives them, and the digests of SHA-256.
pub record MatchHost : Type 0 where
  pub half : ℕ
  pub token_sort_ratio : String → String → ℕ
  pub match_digest : (case_id registration_id : String) → (queried_at : ℕ) → String
  pub registration_digest : (ibu_id dna_fingerprint : String) → String

unfoldable pub registration_from_signal :
    MatchHost → RegistrySignal → (registered_at ttl_days : ℕ) → RegistryRegistration
registration_from_signal m signal registered_at ttl_days = record {
  signal = signal;
  registration_id = m.registration_digest signal.ibu_id signal.dna_fingerprint;
  registered_at = registered_at;
  ttl = registered_at + 86400 * ttl_days;
}
