-- ===== src/Fraud/Entity.antt =====
-- fraud_tbml/entity_verification.py
use trade_sentry.Prelude.{
  String, ◌&&◌, Option, none, some, List, [], ◌∷◌, ◌++◌, find, string_eq, ◌==◌,
}
use trade_sentry.Prelude.Decimal.{Decimal, decimal}
use trade_sentry.Fraud.{EntityStatus, verified, unverified, EntityVerificationResult}
use trade_sentry.Fraud.Common.{FraudHost, normalize_name}

abbrev pub entity_caveats : List String
entity_caveats =
    "Synthetic registry data is incomplete and provided for demonstration only"
    ∷ "An unverified entity is not evidence of wrongdoing"
    ∷ "Human verification is required before any consequential action" ∷ []

pub record EntityRecord : Type 0 where
  pub name : String
  pub country : String
  pub known_relationships : List String

pub record EntityFixture : Type 0 where
  pub records : List EntityRecord
  pub data_source : String
  pub version : String

-- The arguments of `verify`: a name with its country and its part in the trade.
pub record Party : Type 0 where
  pub name : String
  pub country : String
  pub entity_type : String

module _ (h : FraudHost) where
  unfoldable pub unavailable_entity_result : Party → (reason : String) → EntityVerificationResult
  unavailable_entity_result p reason = record {
    provenance = record {
      data_source = "Provider unavailable";
      source_version = "unavailable";
      retrieved_at = h.retrieved_now;
      caveats = entity_caveats ++ reason ∷ [];
    };
    raw_name = p.name;
    normalized_name = normalize_name h p.name;
    country = p.country;
    entity_type = p.entity_type;
    verification_status = unverified;
    known_relationships = [];
    confidence = decimal 0 0;
  }

  abbrev pub entity_result :
      EntityFixture → Party → EntityStatus → List String → Decimal → EntityVerificationResult
  entity_result f p status relationships confidence = record {
    provenance = record {
      data_source = f.data_source;
      source_version = f.version;
      retrieved_at = h.retrieved_now;
      caveats = entity_caveats;
    };
    raw_name = p.name;
    normalized_name = normalize_name h p.name;
    country = p.country;
    entity_type = p.entity_type;
    verification_status = status;
    known_relationships = relationships;
    confidence = confidence;
  }

  abbrev pub with_entity : EntityFixture → Party → Option EntityRecord → EntityVerificationResult
  with_entity f p none = entity_result f p unverified [] (decimal 2 1)
  with_entity f p (some r) = entity_result f p verified r.known_relationships (decimal 9 1)

  -- `MockEntityVerificationProvider.verify`
  unfoldable pub verify_entity : EntityFixture → Party → EntityVerificationResult
  verify_entity f p = with_entity f p (
      find
        (λ r.
          (normalize_name h r.name == normalize_name h p.name)
          && (h.casefold r.country == h.casefold p.country))
        f.records)
