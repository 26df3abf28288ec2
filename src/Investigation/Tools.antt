-- ===== src/Investigation/Tools.antt =====
-- investigation_orchestrator.py: `conditional_tool_calls`.
pub mod Carry
pub mod Failure
use Prim.Native.String.{◌++◌ as ◌+◌}
use trade_sentry.Prelude.{
  ◌-◌, String, Bool, true, false, not, Option, none, some, List, [], ◌∷◌, ◌++◌, elem, string_eq,
  length, if◌then◌else◌, leb,
}
use trade_sentry.Prelude.Text.{show_nat}
use trade_sentry.Compliance.Finding.{one_if}
use trade_sentry.Dna.{TransactionDna}
use trade_sentry.Fraud.{
  PriceBenchmarkResult, VesselVerificationResult, EntityVerificationResult,
  SanctionsScreeningResult,
}
use trade_sentry.Investigation.Model.{
  InvestigationState, ToolSelectionPlan, AuditEvent, hold_action,
}
use trade_sentry.Investigation.Planner.{approved_agent_tools}
use trade_sentry.Investigation.World.{World, Outcome}
use trade_sentry.Investigation.Calls.{Step, quiet, timeline, ToolCall, record_tool_call}

pub data Tool : Type 0 where
  price vessel entity sanctions : Tool

abbrev pub tool_name : Tool → String
tool_name price = "price_benchmark"
tool_name vessel = "vessel_verification"
tool_name entity = "entity_verification"
tool_name sanctions = "sanctions_screening"

-- `selected`
unfoldable pub selected_tools : ToolSelectionPlan → List Tool
selected_tools plan =
    one_if plan.run_price_benchmark price
    ++ (one_if plan.run_vessel_verification vessel
        ++ (one_if plan.run_entity_verification entity ++ one_if plan.run_sanctions sanctions))

-- The loop's variables: the state with the records, errors, budget and results so far.
pub record Progress : Type 0 where
  pub state : InvestigationState
  pub exhausted : Bool
  pub events : List AuditEvent

abbrev pub started : InvestigationState → Progress
started s = record { state = s; exhausted = false; events = [] }

module _ (w : World) (dna : TransactionDna) where
  abbrev pub recorded {ℓ} : {A : Type ℓ} → Progress → ToolCall A → InvestigationState → Progress
  recorded p c s = record p {
    state = record s {
      tool_calls_made = p.state.tool_calls_made ++ c.call ∷ [];
      tool_budget_remaining = c.remaining;
      errors = c.errors;
    };
    events = p.events ++ c.event ∷ [];
  }

  abbrev pub call {ℓ} : {A : Type ℓ} → Progress → Tool → Outcome A → ToolCall A
  call p t operation = record_tool_call w p.state (tool_name t) (some dna.dna_fingerprint) operation

  -- the result written to its field, unless there is none
  abbrev pub keep_price : InvestigationState → Option PriceBenchmarkResult → InvestigationState
  keep_price s none = s
  keep_price s (some r) = record s { price_benchmark = some r }

  abbrev pub keep_vessel : InvestigationState → Option VesselVerificationResult → InvestigationState
  keep_vessel s none = s
  keep_vessel s (some r) = record s { vessel_verification = some r }

  abbrev pub keep_entities :
      InvestigationState → Option (List EntityVerificationResult) → InvestigationState
  keep_entities s none = s
  keep_entities s (some rs) = record s { entity_verifications = rs }

  abbrev pub keep_sanctions :
      InvestigationState → Option SanctionsScreeningResult → InvestigationState
  keep_sanctions s none = s
  keep_sanctions s (some r) = record s { sanctions_result = some r }

  -- one call of a tool
  unfoldable pub run_tool : Progress → Tool → Progress
  run_tool p price =
      let c = call p price (w.run_price_benchmark dna) in recorded p c (keep_price p.state c.result)
  run_tool p vessel =
      let c = call p vessel (w.run_vessel_verification dna) in
      recorded p c (keep_vessel p.state c.result)
  run_tool p entity =
      let c = call p entity (w.run_entity_verification dna) in
      recorded p c (keep_entities p.state c.result)
  run_tool p sanctions =
      let c = call p sanctions (w.run_sanctions_screening dna) in
      recorded p c (keep_sanctions p.state c.result)

  abbrev pub blocked : Progress → Tool → Progress
  blocked p t = record p {
    state = record p.state {
      errors = p.state.errors ++ ("Blocked non-allow-listed tool: " + tool_name t) ∷ [];
    };
  }

  -- A tool that is not allowed is skipped; the loop breaks when no budget is left.
  unfoldable pub run_tools : Progress → List Tool → Progress
  run_tools p [] = p
  run_tools p (t ∷ ts) =
      let after_block = run_tools (blocked p t) ts in
      let after_call = run_tools (run_tool p t) ts in
      if not (elem (tool_name t) approved_agent_tools)
      then after_block
      else if leb p.state.tool_budget_remaining 0
      then record p { exhausted = true }
      else after_call

  abbrev pub exhaust : InvestigationState → InvestigationState
  exhaust s = record s {
    errors = s.errors ++ "Tool budget exhausted; remaining selections were not called" ∷ [];
    requires_human_review = true;
    recommended_action = some hold_action;
    stop_reason = some "TOOL_BUDGET_EXHAUSTED";
  }

  abbrev pub concluded : InvestigationState → Progress → Step
  concluded before p =
      let s = if p.exhausted then exhaust p.state else p.state in
      let count = length p.state.tool_calls_made - length before.tool_calls_made in
      record {
        state = record s {
          timeline =
              timeline w before "conditional_tool_calls"
                (if p.exhausted then "BUDGET_EXHAUSTED" else "COMPLETED")
                ("Executed " + (show_nat count + " selected tools"));
        };
        events = p.events;
      }

  unfoldable pub call_selected : InvestigationState → ToolSelectionPlan → Step
  call_selected s plan = concluded s (run_tools (started s) (selected_tools plan))

module _ (w : World) where
  abbrev pub skipped_calls : InvestigationState → Step
  skipped_calls s = quiet (record s {
    timeline = timeline w s "conditional_tool_calls" "SKIPPED" "No valid plan or DNA";
  })

  abbrev pub dispatch : InvestigationState → Option ToolSelectionPlan → Option TransactionDna → Step
  dispatch s (some plan) (some dna) = call_selected w dna s plan
  dispatch s (some plan) none = skipped_calls s
  dispatch s none _ = skipped_calls s

  unfoldable pub conditional_tool_calls : InvestigationState → Step
  conditional_tool_calls s = dispatch s s.tool_selection_plan s.transaction_dna
