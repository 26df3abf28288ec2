-- ===== src/Fraud/Runner.antt =====
-- apps/api/tradesentry_api/fraud_tbml_runner.py
pub mod Retries
use Prim.Native.String.{◌++◌ as ◌+◌}
use trade_sentry.Prelude.{
  ℕ, zero, suc, ◌-◌, ◌+◌ as ◌+ℕ◌, ◌/◌, String, Bool, true, false, ◌&&◌, Option, none, some, List,
  [], ◌∷◌, ◌++◌, map, elem, or_else, string_eq, ◌==◌, if◌then◌else◌,
}
use trade_sentry.Prelude.Decimal.{Decimal, decimal}
use trade_sentry.Prelude.Sort.{sorted}
use trade_sentry.Prelude.Text.{show_nat, codes, le_codes, is_text}
use trade_sentry.Contracts.Fields.{Date}
use trade_sentry.Dna.{TransactionDna}
use trade_sentry.Dna.Normalization.{get}
use trade_sentry.Fraud.{
  PriceSignal, VesselStatus, SanctionsStatus, PriceBenchmarkResult, VesselVerificationResult,
  EntityVerificationResult, EntityScreenResult, SanctionsScreeningResult,
}
use trade_sentry.Fraud.Common.{FraudHost}
use trade_sentry.Fraud.Price.{PriceQuery, unavailable_price_result}
use trade_sentry.Fraud.Vessel.{VesselQuery, unavailable_vessel_result}
use trade_sentry.Fraud.Entity.{Party, unavailable_entity_result}
use trade_sentry.Fraud.Sanctions.{epoch, unavailable_sanctions_result}
use trade_sentry.Investigation.World.{Outcome, returned, raised, ◌>>=◌}
use trade_sentry.Investigation.Calls.{first_chars}

abbrev pub port_countries : List (String × String)
port_countries =
    ("INMUN", "India") ∷ ("INNSA", "India") ∷ ("INIXY", "India") ∷ ("SGSIN", "Singapore") ∷ []

abbrev pub port_names : List (String × String)
port_names =
    ("INMUN", "Mundra")
    ∷ ("INNSA", "Nhava Sheva")
    ∷ ("INIXY", "Kandla")
    ∷ ("SGSIN", "Singapore")
    ∷ []

-- The four providers, each with what its call comes to at the attempt, and `retry_count`.
pub record Providers : Type 0 where
  pub benchmark : ℕ → PriceQuery → Outcome PriceBenchmarkResult
  pub verify_vessel : ℕ → VesselQuery → Outcome VesselVerificationResult
  pub verify_entity : ℕ → Party → Outcome EntityVerificationResult
  pub screen : ℕ → List String → Outcome SanctionsScreeningResult
  pub retry_count : ℕ

-- The event that `_audit` records.
pub record ToolEvent : Type 0 where
  pub case_id : String
  pub ibu_id : String
  pub payload_ref : String

-- A tool's result with the events that are recorded.
pub record ToolRun {ℓ} (A : Type ℓ) : Type ℓ where
  pub result : A
  pub events : List ToolEvent

-- `a or b`, for an optional text and a text
abbrev pub or_text : Option String → String → String
or_text none d = d
or_text (some s) d = if is_text s then s else d

abbrev pub text_or : Option String → Option String → Option String
text_or none b = b
text_or (some s) b = if is_text s then some s else b

abbrev pub value_or : Option String → String → String
value_or none d = d
value_or (some s) d = s

-- the country of a port's code
abbrev pub country_of : Option String → String
country_of port = value_or (get (or_text port "") port_countries) "Unknown"

-- `_date_or_epoch`
abbrev pub date_or_epoch : Option Date → Date
date_or_epoch none = epoch
date_or_epoch (some d) = d

-- `_safe_error`
abbrev pub safe_error : String → String
safe_error e =
    if e == "TimeoutError" then "Provider timeout" else "Provider unavailable (" + (e + ")")

-- a party without a name is left out
abbrev pub named : Option String → (country entity_type : String) → List Party → List Party
named none country entity_type rest = rest
named (some n) country entity_type rest =
    if is_text n
    then record { name = n; country = country; entity_type = entity_type } ∷ rest
    else rest

-- `_entities`
unfoldable pub entities_of : TransactionDna → List Party
entities_of dna =
    named (text_or dna.raw_exporter dna.exporter_normalized) (country_of dna.loading_port_unlocode)
      "exporter"
      (named (text_or dna.raw_importer dna.importer_normalized)
        (country_of dna.discharge_port_unlocode) "importer" [])

abbrev pub names_of : TransactionDna → List String
names_of dna = map (λ p. p.name) (entities_of dna)

abbrev pub signal_value : PriceSignal → String
signal_value PriceSignal.normal = "NORMAL"
signal_value PriceSignal.review = "REVIEW"
signal_value PriceSignal.significant_anomaly = "SIGNIFICANT_ANOMALY"
signal_value PriceSignal.data_unavailable = "DATA_UNAVAILABLE"

abbrev pub vessel_value : VesselStatus → String
vessel_value VesselStatus.consistent = "CONSISTENT"
vessel_value VesselStatus.anomaly = "ANOMALY"
vessel_value VesselStatus.data_unavailable = "DATA_UNAVAILABLE"

abbrev pub sanctions_value : SanctionsStatus → String
sanctions_value SanctionsStatus.no_match = "NO_MATCH"
sanctions_value SanctionsStatus.possible_match = "POSSIBLE_MATCH"
sanctions_value SanctionsStatus.confirmed_source_match = "CONFIRMED_SOURCE_MATCH"
sanctions_value SanctionsStatus.data_unavailable = "DATA_UNAVAILABLE"

-- the items of a set of texts, each once
abbrev pub distinct : List String → List String
distinct [] = []
distinct (x ∷ xs) = let rest = distinct xs in if elem x rest then rest else x ∷ rest

-- `",".join(texts)`
abbrev pub join_commas : List String → String
join_commas [] = ""
join_commas (s ∷ []) = s
join_commas (s ∷ t ∷ ss) = s + ("," + join_commas (t ∷ ss))

abbrev pub screened_statuses : List EntityScreenResult → String
screened_statuses es =
    let statuses =
      sorted (λ a b. le_codes (codes a) (codes b))
        (distinct (map (λ e. sanctions_value e.match_status) es)) in
    or_text (some (join_commas statuses)) "NO_ENTITIES"

-- `_audit`
abbrev pub audit : TransactionDna → (tool phase status : String) → ToolEvent
audit dna tool phase status = record {
  case_id = dna.case_id;
  ibu_id = dna.presenting_ibu;
  payload_ref =
      "tool://"
      + (tool
          + ("/"
              + (phase
                  + ("/" + (status + ("/dna-sha256-" + first_chars 12 dna.dna_fingerprint))))));
}

-- the results of `verify` for each party, up to the first exception
abbrev pub verify_all {ℓ} : {A : Type ℓ} → (Party → Outcome A) → List Party → Outcome (List A)
verify_all verify [] = returned []
verify_all verify (p ∷ ps) = do r ← verify p; rs ← verify_all verify ps; returned (r ∷ rs)

-- a failure becomes a result
abbrev pub settled {ℓ} : {A : Type ℓ} → (String → A) → Outcome A → A
settled fallback (returned a) = a
settled fallback (raised e) = fallback e

-- what `_execute` raises behind its loop
abbrev pub gave_up {ℓ} : {A : Type ℓ} → Option String → Outcome A
gave_up none = raised "RuntimeError"
gave_up (some e) = raised e

module _ (h : FraudHost) where
  -- after the attempts up to now, with what the last one raised
  unfoldable pub attempts {ℓ} :
      {A : Type ℓ} → (ℕ → Outcome A) → (left attempt : ℕ) → Option String → Outcome A
  attempts operation zero attempt last = gave_up last
  attempts operation (suc left) attempt last = elim (operation attempt) [
    | returned a ↦ returned a
    | raised e ↦
        if h.is_transient e then attempts operation left (suc attempt) (some e) else raised e
  ]

  -- `_execute`
  unfoldable pub execute {ℓ} : {A : Type ℓ} → (retry_count : ℕ) → (ℕ → Outcome A) → Outcome A
  execute retry_count operation = attempts operation (suc retry_count) 0 none

  -- `_quarter`
  abbrev pub quarter : Option Date → String
  quarter value =
      let d = date_or_epoch value in
      show_nat (h.year d) + ("-Q" + show_nat (suc ((h.month d - 1) / 3)))

  abbrev pub unit_value_of : Option Decimal → Decimal
  unit_value_of none = decimal 0 0
  unit_value_of (some d) = d

  abbrev pub price_query : TransactionDna → PriceQuery
  price_query dna = record {
    hs_code = or_text dna.hs_code_canonical "UNKNOWN";
    origin_country = country_of dna.loading_port_unlocode;
    destination_country = country_of dna.discharge_port_unlocode;
    period = quarter dna.shipment_date_iso;
    invoice_unit_value = unit_value_of dna.unit_value_usd_per_unit;
    currency = "USD";
  }

  abbrev pub vessel_query : TransactionDna → VesselQuery
  vessel_query dna = record {
    vessel_name = or_text (text_or dna.vessel_normalized dna.raw_vessel_name) "UNKNOWN";
    imo_number = dna.imo_number;
    voyage_number = or_text (text_or dna.voyage_normalized dna.raw_voyage_number) "UNKNOWN";
    stated_port =
        or_text
          (text_or (get (or_text dna.loading_port_unlocode "") port_names) dna.raw_loading_port)
          "UNKNOWN";
    stated_date = date_or_epoch dna.shipment_date_iso;
  }

  module _ (p : Providers) (dna : TransactionDna) where
    abbrev pub audited {ℓ} : {A : Type ℓ} → (tool : String) → A → (status : String) → ToolRun A
    audited tool result status = record {
      result = result;
      events = audit dna tool "started" "STARTED" ∷ audit dna tool "completed" status ∷ [];
    }

    unfoldable pub run_price_benchmark : ToolRun PriceBenchmarkResult
    run_price_benchmark =
        let q = price_query dna in
        let result =
          settled (λ e. unavailable_price_result h q (safe_error e))
            (execute p.retry_count (λ i. p.benchmark i q)) in
        audited "price_benchmark" result (signal_value result.signal)

    unfoldable pub run_vessel_verification : ToolRun VesselVerificationResult
    run_vessel_verification =
        let q = vessel_query dna in
        let result =
          settled (λ e. unavailable_vessel_result h q (safe_error e))
            (execute p.retry_count (λ i. p.verify_vessel i q)) in
        audited "vessel_verification" result (vessel_value result.verification_result)

    unfoldable pub run_entity_verification : ToolRun (List EntityVerificationResult)
    run_entity_verification =
        let entities = entities_of dna in
        let results =
          settled (λ e. map (λ x. unavailable_entity_result h x (safe_error e)) entities)
            (execute p.retry_count (λ i. verify_all (p.verify_entity i) entities)) in
        audited "entity_verification" results "TYPED_RESULTS_RETURNED"

    unfoldable pub run_sanctions_screening : ToolRun SanctionsScreeningResult
    run_sanctions_screening =
        let names = names_of dna in
        let result =
          settled (λ e. unavailable_sanctions_result h names (safe_error e))
            (execute p.retry_count (λ i. p.screen i names)) in
        audited "sanctions_screening" result (screened_statuses result.screened_entities)
