-- ===== src/Fraud/Vessel.antt =====
-- fraud_tbml/vessel_verification.py
use Prim.Native.String.{◌++◌ as ◌+◌}
use trade_sentry.Prelude.{
  ◌-◌, String, Bool, false, ◌&&◌, ◌||◌, Option, none, some, List, [], ◌∷◌, find, leb, string_eq,
  ◌==◌, if◌then◌else◌,
}
use trade_sentry.Prelude.Decimal.{Decimal, decimal}
use trade_sentry.Contracts.Fields.{Date}
use trade_sentry.Fraud.{consistent, anomaly, data_unavailable, VesselVerificationResult}
use trade_sentry.Fraud.Common.{FraudHost, is_within, remove_prefix}

abbrev pub vessel_caveats : List String
vessel_caveats =
    "Synthetic schedule data may be incomplete or delayed"
    ∷ "Port-call consistency is an investigation signal — not proof of fraud"
    ∷ "Human verification is required before any consequential action" ∷ []

pub record VesselRecord : Type 0 where
  pub vessel_name : String
  pub imo_number : String
  pub port : String
  pub port_date : Date
  pub confidence : Decimal

pub record VesselFixture : Type 0 where
  pub records : List VesselRecord
  pub data_source : String
  pub version : String

-- The arguments of `verify`.
pub record VesselQuery : Type 0 where
  pub vessel_name : String
  pub imo_number : Option String
  pub voyage_number : String
  pub stated_port : String
  pub stated_date : Date

abbrev pub has_imo : Option String → String → Bool
has_imo none imo = false
has_imo (some i) imo = imo == i

-- `abs((a - b).days) <= 3`
abbrev pub is_near_date : Date → Date → Bool
is_near_date a b = leb (a - b) 3 && leb (b - a) 3

module _ (h : FraudHost) where
  unfoldable pub unavailable_vessel_result :
      VesselQuery → (reason : String) → VesselVerificationResult
  unavailable_vessel_result q reason = record {
    provenance = record {
      data_source = "Provider unavailable";
      source_version = "unavailable";
      retrieved_at = h.retrieved_now;
      caveats = vessel_caveats;
    };
    vessel_name = q.vessel_name;
    imo_number = q.imo_number;
    voyage_number = q.voyage_number;
    stated_port = q.stated_port;
    stated_date = q.stated_date;
    verification_result = data_unavailable;
    details = reason;
    confidence = decimal 0 0;
  }

  -- the port of the record is named, and its date is at most three days off
  abbrev pub is_consistent : VesselQuery → VesselRecord → Bool
  is_consistent q r =
      is_within (h.casefold r.port) (h.casefold q.stated_port)
      && is_near_date r.port_date q.stated_date

  abbrev pub with_record :
      VesselFixture → VesselQuery → Option VesselRecord → VesselVerificationResult
  with_record f q none = unavailable_vessel_result q "Unknown vessel"
  with_record f q (some r) = record {
    provenance = record {
      data_source = f.data_source;
      source_version = f.version;
      retrieved_at = h.retrieved_now;
      caveats = vessel_caveats;
    };
    vessel_name = q.vessel_name;
    imo_number = q.imo_number;
    voyage_number = q.voyage_number;
    stated_port = q.stated_port;
    stated_date = q.stated_date;
    verification_result = if is_consistent q r then consistent else anomaly;
    details =
        "Fixture shows "
        + (r.vessel_name
            + (" at "
                + (r.port
                    + (" on "
                        + (h.isoformat r.port_date
                            + ("; stated "
                                + (q.stated_port
                                    + (" on " + (h.isoformat q.stated_date + ".")))))))));
    confidence = r.confidence;
  }

  -- `MockVesselVerificationProvider.verify`
  unfoldable pub verify_vessel : VesselFixture → VesselQuery → VesselVerificationResult
  verify_vessel f q =
      let normalized_name = h.strip (remove_prefix "MV " (h.upper q.vessel_name)) in
      with_record f q (
        find (λ r. (r.vessel_name == normalized_name) || has_imo q.imo_number r.imo_number)
          f.records)
