-- ===== src/Investigation/Services.antt =====
-- apps/api/tradesentry_api/services.py and investigation_orchestrator.py: the orchestrator's services
-- that are code of the repository.
pub mod Screening
use trade_sentry.Prelude.{ℕ, String, Bool, true, false, List}
use trade_sentry.Contracts.Extraction.{ExtractionResult}
use trade_sentry.Dna.{TransactionDna}
use trade_sentry.Dna.Normalization.{DnaHost}
use trade_sentry.Dna.Transaction.{build_transaction_dna}
use trade_sentry.Fraud.Common.{FraudHost}
use trade_sentry.Fraud.Price.{PriceFixture, benchmark}
use trade_sentry.Fraud.Vessel.{VesselFixture, verify_vessel}
use trade_sentry.Fraud.Entity.{EntityFixture, verify_entity}
use trade_sentry.Fraud.Sanctions.{SanctionsFixture, screen}
use trade_sentry.Fraud.Runner.{
  Providers, run_price_benchmark, run_vessel_verification, run_entity_verification,
  run_sanctions_screening,
}
use trade_sentry.Investigation.World.{World, Outcome, returned, raised, ◌>>=◌}

-- the operation of the node `build_transaction_dna`
unfoldable pub dna_operation :
    DnaHost
    → (save : TransactionDna → Outcome (Unit {0})) → (case_id presenting_ibu : String)
    → List ExtractionResult
    → (created_at : ℕ) → Outcome TransactionDna
dna_operation d save case_id presenting_ibu extractions created_at =
    let dna = build_transaction_dna d case_id presenting_ibu extractions created_at in
    save dna >>= λ saved. returned dna

-- the mock providers of `Services.build` over their files
abbrev pub mock_providers :
    FraudHost
    → PriceFixture
    → VesselFixture
    → EntityFixture
    → SanctionsFixture
    → (retry_count : ℕ) → Providers
mock_providers h prices vessels entities sanctions retry_count = record {
  benchmark = λ i q. returned (benchmark h prices q);
  verify_vessel = λ i q. returned (verify_vessel h vessels q);
  verify_entity = λ i q. returned (verify_entity h entities q);
  screen = λ i names. screen h sanctions names;
  retry_count = retry_count;
}

-- `asyncio.wait_for(operation(), timeout)` around a tool that answers: an operation that outlasts the
-- orchestrator's own timeout is cancelled.
abbrev pub wait_for {ℓ} : {A : Type ℓ} → (outlasts : Bool) → A → Outcome A
wait_for true answer = raised "TimeoutError"
wait_for false answer = returned answer

-- A world whose tools and DNA are those of the repository; `outlasts` says which calls of the tools
-- take longer than `tool_timeout_seconds`.
unfoldable pub with_services :
    FraudHost
    → Providers
    → DnaHost
    → (save : TransactionDna → Outcome (Unit {0}))
    → (outlasts : (tool_name : String) → TransactionDna → Bool) → World
    → World
with_services h p d save outlasts w = record w {
  transaction_dna = dna_operation d save;
  run_price_benchmark =
      λ dna. wait_for (outlasts "price_benchmark" dna) (run_price_benchmark h p dna).result;
  run_vessel_verification =
      λ dna. wait_for (outlasts "vessel_verification" dna) (run_vessel_verification h p dna).result;
  run_entity_verification =
      λ dna. wait_for (outlasts "entity_verification" dna) (run_entity_verification h p dna).result;
  run_sanctions_screening =
      λ dna. wait_for (outlasts "sanctions_screening" dna) (run_sanctions_screening h p dna).result;
}
