-- ===== src/Fraud/Price.antt =====
-- fraud_tbml/price_benchmark.py
pub mod Bands
use Prim.Native.String.{◌++◌ as ◌+◌}
use trade_sentry.Prelude.{
  ℕ, String, Bool, true, false, ◌||◌, not, Option, none, some, List, [], ◌∷◌, ◌++◌, string_eq, ◌==◌,
  if◌then◌else◌,
}
use trade_sentry.Prelude.Decimal.{Decimal, decimal, le, mul}
use trade_sentry.Fraud.{
  PriceSignal, normal, review, significant_anomaly, data_unavailable, PriceBenchmarkResult,
}
use trade_sentry.Fraud.Common.{FraudHost}
use trade_sentry.Dna.Normalization.{get}

abbrev pub price_caveats : List String
price_caveats =
    "Price differences may reflect quality grade"
    ∷ "Incoterms differences (CIF vs FOB) affect unit value"
    ∷ "Contract terms or forward pricing may explain deviation"
    ∷ "Market timing and seasonal factors affect prices"
    ∷ "This is a review signal — not proof of fraud" ∷ []

abbrev pub methodology : String
methodology =
    "Invoice unit value is compared with corridor percentiles using prototype demo values — not regulatory standards. Values at or below P90 are NORMAL; values up to 1.5× P90 are REVIEW; higher values are SIGNIFICANT_ANOMALY. Human review is required."

-- One record of the reference prices, and the file of them.
pub record PriceReference : Type 0 where
  pub reference_min : Decimal
  pub reference_p25 : Decimal
  pub reference_p50 : Decimal
  pub reference_p75 : Decimal
  pub reference_p90 : Decimal
  pub confidence : Decimal

pub record PriceFixture : Type 0 where
  pub records : List (String × PriceReference)
  pub data_source : String
  pub version : String

-- The arguments of `benchmark`.
pub record PriceQuery : Type 0 where
  pub hs_code : String
  pub origin_country : String
  pub destination_country : String
  pub period : String
  pub invoice_unit_value : Decimal
  pub currency : String

-- the signal of a value against the 90th percentile
unfoldable pub price_signal : (value p90 : Decimal) → PriceSignal
price_signal value p90 =
    if le value p90
    then normal
    else if le value (mul p90 (decimal 15 1))
    then review
    else significant_anomaly

abbrev pub corridor : PriceQuery → String
corridor q = q.origin_country + (" → " + q.destination_country)

module _ (h : FraudHost) where
  unfoldable pub unavailable_price_result : PriceQuery → (reason : String) → PriceBenchmarkResult
  unavailable_price_result q reason = record {
    provenance = record {
      data_source = "Provider unavailable";
      source_version = "unavailable";
      retrieved_at = h.retrieved_now;
      caveats = price_caveats ++ reason ∷ [];
    };
    hs_code = q.hs_code;
    trade_corridor = corridor q;
    period = q.period;
    reference_min = none;
    reference_p25 = none;
    reference_p50 = none;
    reference_p75 = none;
    reference_p90 = none;
    invoice_unit_value = q.invoice_unit_value;
    currency = q.currency;
    deviation_from_p50_pct = none;
    signal = data_unavailable;
    methodology_note = methodology;
    confidence = decimal 0 0;
  }

  abbrev pub compared_with : PriceFixture → PriceQuery → PriceReference → PriceBenchmarkResult
  compared_with f q r = record {
    provenance = record {
      data_source = f.data_source;
      source_version = f.version;
      retrieved_at = h.retrieved_now;
      caveats = price_caveats;
    };
    hs_code = q.hs_code;
    trade_corridor = corridor q;
    period = q.period;
    reference_min = some r.reference_min;
    reference_p25 = some r.reference_p25;
    reference_p50 = some r.reference_p50;
    reference_p75 = some r.reference_p75;
    reference_p90 = some r.reference_p90;
    invoice_unit_value = q.invoice_unit_value;
    currency = q.currency;
    deviation_from_p50_pct = some (h.deviation q.invoice_unit_value r.reference_p50);
    signal = price_signal q.invoice_unit_value r.reference_p90;
    methodology_note = methodology;
    confidence = r.confidence;
  }

  -- with the record of the key, if there is one
  abbrev pub with_reference :
      PriceFixture → PriceQuery → Option PriceReference → PriceBenchmarkResult
  with_reference f q none = unavailable_price_result q "No matching fixture record"
  with_reference f q (some r) =
      if h.upper q.currency == "USD"
      then compared_with f q r
      else unavailable_price_result q "No matching fixture record"

  abbrev pub price_key : PriceQuery → String
  price_key q =
      q.hs_code + ("|" + (q.origin_country + ("|" + (q.destination_country + ("|" + q.period)))))

  -- `MockPriceBenchmarkProvider.benchmark`
  unfoldable pub benchmark : PriceFixture → PriceQuery → PriceBenchmarkResult
  benchmark f q = with_reference f q (get (price_key q) f.records)
