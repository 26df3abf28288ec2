-- ===== src/Investigation/Graph.antt =====
-- investigation_orchestrator.py: the graph of `_build_graph`, and `run`.
pub mod Reach
pub mod Clearance
pub mod Held
pub mod Gate
pub mod Budget
use Prim.Native.String.{◌++◌ as ◌+◌}
use trade_sentry.Prelude.{
  ℕ, zero, suc, String, Bool, true, false, Option, none, some, List, [], ◌∷◌, ◌++◌, if◌then◌else◌,
  string_eq, option_beq,
}
use trade_sentry.Prelude.Text.{show_nat}
use trade_sentry.Contracts.Documents.{DocumentCompleteness, is_complete}
use trade_sentry.Investigation.Model.{
  InvestigationState, initial_state, InvestigationResponse, WorkflowStatus, completed, interrupted,
  AuditEvent, AuditEventType, agent_decision, risk_scored, human_review_required,
}
use trade_sentry.Investigation.World.{World}
use trade_sentry.Investigation.Calls.{Step, timeline}
use trade_sentry.Investigation.Nodes.{
  load_case, check_completeness, run_ucp_rules, build_transaction_dna, cross_ibu_check,
  fraud_triage,
}
use trade_sentry.Investigation.Tools.{conditional_tool_calls}
use trade_sentry.Investigation.Evidence.{aggregate_evidence}
use trade_sentry.Investigation.Assessment.{
  risk_assessment, pass_gate, settlement_readiness, band_value,
}

pub data Node : Type 0 where
  loading checking ucp dna matching triage tools aggregation assessment gate readiness : Node

abbrev pub after_completeness : Option DocumentCompleteness → Node
after_completeness none = gate
after_completeness (some c) = if is_complete c.status then ucp else gate

-- The edges, taken in the state that the node leaves; `none` is END.
unfoldable pub successor : Node → InvestigationState → Option Node
successor loading s = if option_beq s.stop_reason (some "NO_DOCUMENTS") then none else some checking
successor checking s = some (after_completeness s.completeness)
successor ucp s = some dna
successor dna s = some matching
successor matching s = some triage
successor triage s = some tools
successor tools s = some aggregation
successor aggregation s = some assessment
successor assessment s = some gate
successor gate s = some readiness
successor readiness s = none

-- the update of a node that does not interrupt
unfoldable pub visit : World → Node → InvestigationState → Step
visit w loading s = load_case w s
visit w checking s = check_completeness w s
visit w ucp s = run_ucp_rules w s
visit w dna s = build_transaction_dna w s
visit w matching s = cross_ibu_check w s
visit w triage s = fraud_triage w s
visit w tools s = conditional_tool_calls w s
visit w aggregation s = aggregate_evidence w s
visit w assessment s = risk_assessment w s
visit w gate s = pass_gate w s
visit w readiness s = settlement_readiness w s

-- `interrupt` in the gate stops the run before the gate updates the state.
unfoldable pub interrupts : Node → InvestigationState → Bool
interrupts gate s = s.requires_human_review
interrupts _ s = false

-- How a run of the graph comes out: at END, at the interrupt, or with no fuel left.
pub data Ending : Type 0 where
  finished : InvestigationState → List AuditEvent → Ending
  stopped : InvestigationState → List AuditEvent → Ending
  unfinished : Ending

abbrev pub prepend : List AuditEvent → Ending → Ending
prepend es (finished s fs) = finished s (es ++ fs)
prepend es (stopped s fs) = stopped s (es ++ fs)
prepend es unfinished = unfinished

-- along the edge that was taken, with `rest` for the run from the next node
abbrev pub follow : (Node → InvestigationState → Ending) → Step → Option Node → Ending
follow rest step none = finished step.state step.events
follow rest step (some n) = prepend step.events (rest n step.state)

abbrev pub arrive :
    World → (Node → InvestigationState → Ending) → Node → InvestigationState → Ending
arrive w rest n s =
    if interrupts n s
    then stopped s []
    else follow rest (visit w n s) (successor n (visit w n s).state)

unfoldable pub traverse : World → ℕ → Node → InvestigationState → Ending
traverse w zero n s = unfinished
traverse w (suc fuel) n s = arrive w (traverse w fuel) n s

-- Eleven nodes, none of them twice.
abbrev pub graph_fuel : ℕ
graph_fuel = 11

abbrev run_event : InvestigationState → AuditEventType → String → AuditEvent
run_event s t payload_ref = record {
  case_id = s.case_id;
  ibu_id = s.ibu_id;
  actor_id = "investigation-orchestrator";
  actor_role = "AGENT";
  event_type = t;
  payload_ref = payload_ref;
}

abbrev reason_or : String → Option String → String
reason_or default none = default
reason_or default (some r) = r

abbrev decision_event : InvestigationState → AuditEvent
decision_event s =
    run_event s agent_decision
      ("agent://" + (s.case_id + ("/" + reason_or "complete" s.stop_reason)))

abbrev score_text : Option ℕ → String
score_text none = "None"
score_text (some n) = show_nat n

abbrev risk_events : InvestigationState → List AuditEvent
risk_events s = elim s.risk_band [
  | none ↦ []
  | some band ↦
      run_event s risk_scored
        ("risk://" + (s.case_id + ("/" + (band_value band + ("/" + score_text s.risk_score)))))
      ∷ []
]
  where
    score_text : Option ℕ → String
    score_text none = "None"
    score_text (some n) = show_nat n

abbrev review_events : InvestigationState → List AuditEvent
review_events s =
    if s.requires_human_review
    then run_event s human_review_required
        ("review-gate://" + (s.case_id + ("/" + reason_or "required" s.stop_reason)))
      ∷ []
    else []

-- A response, with the audit events of the run in their order.
pub record Run : Type 0 where
  pub response : InvestigationResponse
  pub events : List AuditEvent

abbrev respond : InvestigationState → WorkflowStatus → List AuditEvent → Run
respond s status events = record {
  response = record { state = s; workflow_status = status };
  events = events ++ (decision_event s ∷ (risk_events s ++ review_events s));
}

abbrev pub interruption : World → InvestigationState → InvestigationState
interruption w s = record s {
  timeline =
      timeline w s "human_review_gate" "INTERRUPTED"
        (reason_or "Mandatory human review required" s.stop_reason);
}

abbrev pub conclude : World → Ending → Option Run
conclude w (finished s events) = some (respond s completed events)
conclude w (stopped s events) = some (respond (interruption w s) interrupted events)
conclude w unfinished = none

-- `request.tool_budget or default`
abbrev pub budget_or_default : (default_tool_budget : ℕ) → Option ℕ → ℕ
budget_or_default default_tool_budget none = default_tool_budget
budget_or_default default_tool_budget (some b) = b

-- `run`; `none` would mean that the fuel ran out.
unfoldable pub run : World → (case_id ibu_id : String) → (tool_budget : Option ℕ) → Option Run
run w case_id ibu_id tool_budget = conclude w (
    traverse w graph_fuel loading
      (initial_state case_id ibu_id (budget_or_default w.default_tool_budget tool_budget)))
