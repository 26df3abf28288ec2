-- ===== src/Investigation/Tools/Failure.antt =====
-- What a screening that fails leaves in the state.
use trade_sentry.Prelude.{◌≡◌, refl, String, Option, none, some, leb, Bool-cases, inl, inr}
use trade_sentry.Dna.{TransactionDna}
use trade_sentry.Investigation.Model.{InvestigationState}
use trade_sentry.Investigation.World.{World, Outcome, raised}
use trade_sentry.Investigation.Calls.{ToolCall, record_tool_call}
use trade_sentry.Investigation.Risk.{risk_score}
use trade_sentry.Investigation.Assessment.{alerts}
use trade_sentry.Investigation.Tools.{Progress, sanctions, run_tool, recorded, call}

failed_call-result {ℓ} :
    {A : Type ℓ} (w : World) (s : InvestigationState) (name : String) (f : Option String)
    (o : Outcome A) (e : String)
    → o ≡ raised e
    → (record_tool_call w s name f o).result ≡ none
unfolding record_tool_call
failed_call-result w s name f o e q = elim (Bool-cases (leb s.tool_budget_remaining 0)) [
  | inl h ↦ rw h refl
  | inr h ↦ rw (h, q) refl
]

alerts-recorded {ℓ} :
    {A : Type ℓ} (w : World) (dna : TransactionDna) (p : Progress) (c : ToolCall A)
    → alerts (recorded w dna p c p.state).state ≡ alerts p.state
unfolding alerts risk_score
alerts-recorded w dna p c = refl

-- If the sanctions screening raises an exception, the call leaves no result, asks for no review and
-- changes nothing that the risk assessment looks at: the case is assessed as if no screening had
-- been selected.
pub failed_screening_unnoticed :
    (w : World) (dna : TransactionDna) (p : Progress) (e : String)
    → w.run_sanctions_screening dna ≡ raised e
    → let after : InvestigationState = (run_tool w dna p sanctions).state in
      (after.sanctions_result ≡ p.state.sanctions_result)
      × (after.requires_human_review ≡ p.state.requires_human_review)
      × (alerts after ≡ alerts p.state)
unfolding run_tool
failed_screening_unnoticed w dna p e q =
    let none_left =
      failed_call-result w p.state "sanctions_screening" (some dna.dna_fingerprint)
        (w.run_sanctions_screening dna) e q in
    rw none_left
      (refl, refl, alerts-recorded w dna p (call w dna p sanctions (w.run_sanctions_screening dna)))
