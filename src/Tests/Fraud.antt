-- ===== src/Tests/Fraud.antt =====
-- The tools of the investigation over a concrete list.
use trade_sentry.Prelude.{
  Bool, ℕ, zero, suc, any, is_empty, ◌<◌, ◌≡◌, refl, String, true, false, none, some, [], ◌∷◌,
  arith,
}
use trade_sentry.Prelude.Decimal.{decimal}
use trade_sentry.Dna.{TransactionDna}
use trade_sentry.Dna.Text.{join_with}
use trade_sentry.Fraud.Common.{FraudHost, normalize_name, split}
use trade_sentry.Fraud.Sanctions.{SanctionsFixture, screen}
use trade_sentry.Fraud.Sanctions.Listed.{is_listed}
use trade_sentry.Fraud.Runner.{Providers, execute, entities_of, names_of}
use trade_sentry.Fraud.Runner.Retries.{execute_success, IsTransient}
use trade_sentry.Investigation.Model.{initial_state}
use trade_sentry.Investigation.World.{Outcome, returned, raised}
use trade_sentry.Investigation.Assessment.{alerts}
use trade_sentry.Investigation.Tools.{Progress, started, sanctions, run_tool}
use trade_sentry.Investigation.Services.{with_services}
use trade_sentry.Investigation.Services.Screening.{failing_screening_alerts, listed_party_alerts}
use trade_sentry.Tests.Data.{silent_world, plain_dna}
use trade_sentry.Tests.Dna.{dna_host}

-- any two texts are fully alike
abbrev fraud_host : FraudHost
fraud_host = record {
  isalnum = λ c. true;
  lower = λ c. String.◌∷◌ c String.[];
  upper = λ s. s;
  casefold = λ s. s;
  strip = λ s. s;
  year = λ d. 1970;
  month = λ d. 1;
  isoformat = λ d. "1970-01-01";
  full = 100;
  ratio = λ a b. 100;
  rounded = λ a b. decimal a 2;
  deviation = λ a b. a;
  retrieved_now = 0;
  is_transient = λ e. true;
}

-- a provider that answers at the third attempt
abbrev third_time : ℕ → Outcome ℕ
third_time zero = raised "TimeoutError"
third_time (suc zero) = raised "TimeoutError"
third_time (suc (suc n)) = returned n

execute_success_example : execute fraud_host 2 third_time ≡ returned 0
execute_success_example = execute_success fraud_host third_time 2 2 0 (omega arith) first_two refl
  where
    first_two : (j : ℕ) → j < 2 → IsTransient fraud_host (third_time j)
    first_two zero lt = refl
    first_two (suc zero) lt = refl
    first_two (suc (suc j)) lt = absurd (omega (arith, lt))

abbrev exporter_dna : TransactionDna
exporter_dna = record plain_dna { raw_exporter = some "ACME" }

abbrev demo_list : SanctionsFixture
demo_list = record {
  records = record { name = "ACME"; listed_in = "OFAC SDN"; source_identifier = none } ∷ [];
  data_source = "list";
  version = "1";
  list_date = 0;
  threshold_num = 82;
  threshold_den = 100;
}

abbrev down : Providers
down = record {
  benchmark = λ i q. raised "ConnectionError";
  verify_vessel = λ i q. raised "ConnectionError";
  verify_entity = λ i q. raised "ConnectionError";
  screen = λ i names. raised "ConnectionError";
  retry_count = 1;
}

abbrev saved : TransactionDna → Outcome (Unit {0})
saved dna = returned tt

abbrev open_state : Progress
open_state = started (initial_state "C-1" "SG" 10)

one_name : is_empty (names_of exporter_dna) ≡ false
unfolding entities_of
one_name = refl

on_list : any (is_listed fraud_host demo_list) (names_of exporter_dna) ≡ true
unfolding entities_of normalize_name split join_with
on_list = refl

abbrev in_time : String → TransactionDna → Bool
in_time tool_name dna = false

failing_screening_alerts_example :
    alerts
      (run_tool
        (with_services fraud_host down dna_host saved in_time (silent_world []))
        exporter_dna
        open_state
        sanctions).state
    ≡ true
failing_screening_alerts_example =
    failing_screening_alerts fraud_host down dna_host saved in_time (silent_world []) exporter_dna
      open_state (λ i. tt) one_name (omega arith) refl

listed_party_alerts_example :
    alerts
      (run_tool
        (with_services fraud_host
          (record down { screen = λ i names. screen fraud_host demo_list names })
          dna_host
          saved
          in_time
          (silent_world []))
        exporter_dna
        open_state
        sanctions).state
    ≡ true
listed_party_alerts_example =
    listed_party_alerts fraud_host down demo_list dna_host saved in_time (silent_world [])
      exporter_dna open_state (λ a. refl) (omega arith) on_list (omega arith) refl
