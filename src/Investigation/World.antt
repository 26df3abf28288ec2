-- ===== src/Investigation/World.antt =====
-- What the orchestrator's nodes await or read from outside: the services, the clock and digests.
use trade_sentry.Prelude.{ℕ, String, Option, List}
use trade_sentry.Contracts.Extraction.{DocumentRecord, ExtractionResult}
use trade_sentry.Compliance.Model.{ComplianceCaseFacts, ComplianceResult}
use trade_sentry.Compliance.Finding.{Host}
use trade_sentry.Dna.{TransactionDna}
use trade_sentry.CrossIbu.Model.{RegistrySignal, RegistryRegistration, MatchHost}
use trade_sentry.Fraud.{
  PriceBenchmarkResult, VesselVerificationResult, EntityVerificationResult,
  SanctionsScreeningResult,
}
use trade_sentry.Investigation.Model.{TriageContext, ToolSelectionPlan}

-- What an awaited operation comes to: a value, or an exception with its class name. A timeout is the
-- exception "TimeoutError".
pub data Outcome {ℓ} (A : Type ℓ) : Type ℓ where
  returned : A → Outcome A
  raised : String → Outcome A

infixl 5 ◌>>=◌
abbrev pub ◌>>=◌ {ℓ κ} : {A : Type ℓ} {B : Type κ} → Outcome A → (A → Outcome B) → Outcome B
returned a >>= f = f a
raised e >>= f = raised e

pub record World : Type 0 where
  pub host : Host
  pub match_host : MatchHost
  -- the budget of a run that gives none
  pub default_tool_budget : ℕ
  -- the time at which a node writes its entry of the timeline, and at which a tool is called
  pub now : String → ℕ
  pub called_at : String → ℕ
  pub duration_ms : String → ℕ
  -- `safe_inputs_hash` of the case and, for some tools, of the fingerprint
  pub inputs_hash : String → Option String → String
  pub list_documents : String → List DocumentRecord
  pub compliance_facts : String → Outcome ComplianceCaseFacts
  pub save_compliance : ComplianceResult → Outcome (Unit {0})
  -- `build_transaction_dna` followed by the save in the DNA store
  pub transaction_dna : String → String → List ExtractionResult → ℕ → Outcome TransactionDna
  pub find_candidates : RegistrySignal → Outcome (List RegistryRegistration)
  -- the planner's answer after its validation
  pub plan : TriageContext → Outcome ToolSelectionPlan
  pub run_price_benchmark : TransactionDna → Outcome PriceBenchmarkResult
  pub run_vessel_verification : TransactionDna → Outcome VesselVerificationResult
  pub run_entity_verification : TransactionDna → Outcome (List EntityVerificationResult)
  pub run_sanctions_screening : TransactionDna → Outcome SanctionsScreeningResult
