-- ===== src/Investigation/Services/Screening.antt =====
-- A screening whose provider fails, and what the investigation makes of it.
use trade_sentry.Prelude.{
  ℕ, ◌≤◌, ◌<◌, ◌≡◌, refl, ap, ◌∙◌, String, Bool, true, false, Option, none, some, List, [], ◌∷◌,
  map, any, is_empty, leb, Bool-cases, inl, inr, arith,
}
use trade_sentry.Dna.{TransactionDna}
use trade_sentry.Dna.Normalization.{DnaHost}
use trade_sentry.Fraud.{SanctionsScreeningResult}
use trade_sentry.Fraud.Common.{FraudHost}
use trade_sentry.Fraud.Sanctions.{
  SanctionsFixture, screen, unavailable_sanctions_result, unavailable_screening,
}
use trade_sentry.Fraud.Sanctions.Listed.{is_listed, screen_listed}
use trade_sentry.Fraud.Runner.{Providers, names_of, execute, safe_error, run_sanctions_screening}
use trade_sentry.Fraud.Runner.Retries.{
  IsRaised, execute-IsRaised, settled_raised, settled_returned, execute_success,
}
use trade_sentry.Investigation.Model.{InvestigationState}
use trade_sentry.Investigation.World.{World, Outcome, returned}
use trade_sentry.Investigation.Calls.{record_tool_call}
use trade_sentry.Investigation.Assessment.{alerts, sanctions_alert, is_hit}
use trade_sentry.Investigation.Tools.{Progress, sanctions, run_tool, call, keep_sanctions}
use trade_sentry.Investigation.Services.{with_services, wait_for}

returned_call-result {ℓ} :
    {A : Type ℓ} (w : World) (s : InvestigationState) (name : String) (f : Option String)
    (o : Outcome A) (a : A)
    → 0 < s.tool_budget_remaining
    → o ≡ returned a
    → (record_tool_call w s name f o).result ≡ some a
unfolding record_tool_call
returned_call-result w s name f o a b q = elim (Bool-cases (leb s.tool_budget_remaining 0)) [
  | inl e ↦ absurd (ground (arith, b, e))
  | inr e ↦ rw (e, q) refl
]

-- Every name comes back as one whose data is unavailable.
any-unavailable :
    (h : FraudHost) (reason : String) (names : List String)
    → is_empty names ≡ false
    → any is_hit (map (unavailable_screening h reason) names) ≡ true
any-unavailable h reason [] e = absurd (ground (arith, e))
any-unavailable h reason (n ∷ ns) e = refl

unavailable-alert :
    (h : FraudHost) (reason : String) (names : List String)
    → is_empty names ≡ false
    → sanctions_alert (some (unavailable_sanctions_result h names reason)) ≡ true
unfolding unavailable_sanctions_result
unavailable-alert h reason names e = any-unavailable h reason names e

failed_run-alert :
    (h : FraudHost) (p : Providers) (dna : TransactionDna)
    → ((i : ℕ) → IsRaised (p.screen i (names_of dna)))
    → is_empty (names_of dna) ≡ false
    → sanctions_alert (some (run_sanctions_screening h p dna).result) ≡ true
unfolding run_sanctions_screening
failed_run-alert h p dna r e =
    settled_raised (λ x. sanctions_alert (some x) ≡ true)
      (λ x. unavailable_sanctions_result h (names_of dna) (safe_error x))
      (execute h p.retry_count (λ i. p.screen i (names_of dna)))
      (execute-IsRaised h (λ i. p.screen i (names_of dna)) p.retry_count r)
      (λ x. unavailable-alert h (safe_error x) (names_of dna) e)

alerts-sanctions :
    (s : InvestigationState) → sanctions_alert s.sanctions_result ≡ true → alerts s ≡ true
unfolding alerts
alerts-sanctions s e = ground (arith, e)

kept-alert :
    (w : World) (dna : TransactionDna) (s : InvestigationState)
    (o : Option SanctionsScreeningResult) (x : SanctionsScreeningResult)
    → o ≡ some x
    → sanctions_alert (some x) ≡ true
    → sanctions_alert (keep_sanctions w dna s o).sanctions_result ≡ true
kept-alert w dna s none x q e = absurd (ground (arith, q))
kept-alert w dna s (some y) x q e = ap sanctions_alert q ∙ e

-- what an alert of the tool's result makes of the state
screening-alerts :
    (h : FraudHost) (p : Providers) (d : DnaHost) (save : TransactionDna → Outcome (Unit {0}))
    (outlasts : String → TransactionDna → Bool) (w : World) (dna : TransactionDna) (q : Progress)
    → 0 < q.state.tool_budget_remaining
    → outlasts "sanctions_screening" dna ≡ false
    → sanctions_alert (some (run_sanctions_screening h p dna).result) ≡ true
    → alerts (run_tool (with_services h p d save outlasts w) dna q sanctions).state ≡ true
unfolding run_tool with_services
screening-alerts h p d save outlasts w dna q b t e =
    let world : World = with_services h p d save outlasts w in
    let result : SanctionsScreeningResult = (run_sanctions_screening h p dna).result in
    let answer : Outcome SanctionsScreeningResult =
      wait_for (outlasts "sanctions_screening" dna) result in
    alerts-sanctions (run_tool world dna q sanctions).state (
      kept-alert world dna q.state (call world dna q sanctions answer).result result
        (returned_call-result world q.state "sanctions_screening" (some dna.dna_fingerprint) answer
          result b (ap (λ late. wait_for late result) t))
        e)

-- If the provider of the screening fails at every attempt, the DNA names a party, the budget is not
-- used up and the attempts end within the orchestrator's own timeout, the call of the tool leaves a state that the risk assessment holds for review.
pub failing_screening_alerts :
    (h : FraudHost) (p : Providers) (d : DnaHost) (save : TransactionDna → Outcome (Unit {0}))
    (outlasts : String → TransactionDna → Bool) (w : World) (dna : TransactionDna) (q : Progress)
    → ((i : ℕ) → IsRaised (p.screen i (names_of dna)))
    → is_empty (names_of dna) ≡ false
    → 0 < q.state.tool_budget_remaining
    → outlasts "sanctions_screening" dna ≡ false
    → alerts (run_tool (with_services h p d save outlasts w) dna q sanctions).state ≡ true
failing_screening_alerts h p d save outlasts w dna q r e b t =
    screening-alerts h p d save outlasts w dna q b t (failed_run-alert h p dna r e)

listed_run-alert :
    (h : FraudHost) (p : Providers) (f : SanctionsFixture) (dna : TransactionDna)
    → ((a : String) → h.ratio a a ≡ h.full)
    → f.threshold_num ≤ f.threshold_den
    → any (is_listed h f) (names_of dna) ≡ true
    → sanctions_alert (
        some
          (run_sanctions_screening h
            (record p { screen = λ i names. screen h f names })
            dna).result)
      ≡ true
unfolding run_sanctions_screening
listed_run-alert h p f dna full t e =
    let found = screen_listed h full f (names_of dna) t e in
    let operation : ℕ → Outcome SanctionsScreeningResult = λ i. screen h f (names_of dna) in
    ap (λ x. sanctions_alert (some x))
      (settled_returned (λ x. unavailable_sanctions_result h (names_of dna) (safe_error x))
        (execute h p.retry_count operation) found.0
        (execute_success h operation p.retry_count 0 found.0 (omega arith)
          (λ j lt. absurd (ground (arith, lt))) found.1))
    ∙ found.2

-- If the name of a party of the DNA is on the list of the mock provider, in its normal form, where a
-- text is fully like itself and the threshold is at most one, and the call ends within the
-- orchestrator's timeout and the budget is not used up, the call of the tool leaves a state that
-- the risk assessment holds for review.
pub listed_party_alerts :
    (h : FraudHost) (p : Providers) (f : SanctionsFixture) (d : DnaHost)
    (save : TransactionDna → Outcome (Unit {0})) (outlasts : String → TransactionDna → Bool)
    (w : World) (dna : TransactionDna) (q : Progress)
    → ((a : String) → h.ratio a a ≡ h.full)
    → f.threshold_num ≤ f.threshold_den
    → any (is_listed h f) (names_of dna) ≡ true
    → 0 < q.state.tool_budget_remaining
    → outlasts "sanctions_screening" dna ≡ false
    → alerts
        (run_tool
          (with_services h (record p { screen = λ i names. screen h f names }) d save outlasts w)
          dna
          q
          sanctions).state
      ≡ true
listed_party_alerts h p f d save outlasts w dna q full t e b late =
    screening-alerts h (record p { screen = λ i names. screen h f names }) d save outlasts w dna q b
      late (listed_run-alert h p f dna full t e)
