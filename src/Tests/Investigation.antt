-- ===== src/Tests/Investigation.antt =====
-- The investigation at concrete cases.
use trade_sentry.Prelude.{◌+◌, ◌↔◌, ◌≡◌, refl, true, Option, none, some, is_some, [], ◌∷◌}
use trade_sentry.Investigation.Model.{InvestigationState, initial_state, completed, interrupted}
use trade_sentry.Investigation.Graph.{
  budget_or_default, Run, run, traverse, visit, successor, interrupts,
}
use trade_sentry.Compliance.Engine.{evaluate_compliance}
use trade_sentry.Investigation.World.{returned}
use trade_sentry.Investigation.Calls.{validate_compliance_rule_ids}
use trade_sentry.Investigation.Calls.Guard.{validate-evaluate}
use trade_sentry.Investigation.Calls.Spending.{executed}
use trade_sentry.Investigation.Graph.Budget.{run_budget}
use trade_sentry.Investigation.Model.{hold_action}
use trade_sentry.Investigation.Graph.Gate.{run_total, run_interrupted}
use trade_sentry.Investigation.Nodes.{load_case, check_completeness}
use trade_sentry.Investigation.Assessment.{alerts}
use trade_sentry.Investigation.Tools.{started, run_tool, sanctions}
use trade_sentry.Investigation.Tools.Failure.{failed_screening_unnoticed}
use trade_sentry.Contracts.Documents.{is_complete}
use trade_sentry.Investigation.Completeness.Complete.{IsPresented, completeness_of-complete_iff}
use trade_sentry.Investigation.Completeness.{completeness_of}
use trade_sentry.Tests.Data.{clean_world}
use trade_sentry.Tests.Data.{
  matched_state, silent_world, scanned_invoice, plain_dna, credit_extraction, invoice_summary,
  plain_host, late_case,
}

run_total_example : is_some (run (silent_world (scanned_invoice ∷ [])) "C-1" "SG" none) ≡ true
run_total_example = run_total (silent_world (scanned_invoice ∷ [])) "C-1" "SG" none

abbrev no_answer : Run
no_answer = record {
  response = record { state = initial_state "" "" 0; workflow_status = completed };
  events = [];
}

abbrev answer : Option Run → Run
answer none = no_answer
answer (some r) = r

-- an invoice alone, with no credit to check it against
abbrev incomplete_run : Option Run
incomplete_run = run (silent_world (scanned_invoice ∷ [])) "C-1" "SG" none

incomplete_run-is : incomplete_run ≡ some (answer incomplete_run)
unfolding run traverse visit successor interrupts load_case check_completeness completeness_of
incomplete_run-is = refl

incomplete_run-interrupted : (answer incomplete_run).response.workflow_status ≡ interrupted
unfolding run traverse visit successor interrupts load_case check_completeness completeness_of
incomplete_run-interrupted = refl

run_interrupted_example :
    ((answer incomplete_run).response.state.requires_human_review ≡ true)
    × ((answer incomplete_run).response.state.recommended_action ≡ some hold_action)
run_interrupted_example =
    run_interrupted (silent_world (scanned_invoice ∷ [])) "C-1" "SG" none (answer incomplete_run)
      incomplete_run-is incomplete_run-interrupted

-- a case that is declared ready
abbrev clean_run : Option Run
clean_run = run clean_world "C-1" "SG" none

failed_screening_unnoticed_example :
    let after : InvestigationState =
      (run_tool (silent_world []) plain_dna (started matched_state) sanctions).state in
    (after.sanctions_result ≡ matched_state.sanctions_result)
    × (after.requires_human_review ≡ matched_state.requires_human_review)
    × (alerts after ≡ alerts matched_state)
failed_screening_unnoticed_example =
    failed_screening_unnoticed (silent_world []) plain_dna (started matched_state) "TimeoutError"
      refl

run_budget_example :
    executed (answer incomplete_run).response.state.tool_calls_made
      + (answer incomplete_run).response.state.tool_budget_remaining
    ≡ budget_or_default 12 none
run_budget_example =
    run_budget (silent_world (scanned_invoice ∷ [])) "C-1" "SG" none (answer incomplete_run)
      incomplete_run-is

completeness_of-complete_iff_example :
    (is_complete (completeness_of (invoice_summary ∷ []) (credit_extraction ∷ [])).status ≡ true)
    ↔ IsPresented (invoice_summary ∷ []) (credit_extraction ∷ [])
completeness_of-complete_iff_example =
    completeness_of-complete_iff (invoice_summary ∷ []) (credit_extraction ∷ [])

validate-evaluate_example :
    validate_compliance_rule_ids (evaluate_compliance plain_host late_case)
    ≡ returned (evaluate_compliance plain_host late_case)
validate-evaluate_example = validate-evaluate plain_host late_case
