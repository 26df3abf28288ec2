-- ===== src/Investigation/Calls.antt =====
-- investigation_orchestrator.py: `_timeline`, `_record_tool_call` and `_failure_update`, and the rule
-- identifiers of agents/guardrails.py.
pub mod Spending
pub mod Guard
use Prim.Native.String.{◌++◌ as ◌+◌}
use trade_sentry.Prelude.{
  ℕ, zero, suc, ◌-◌, String, true, not, Option, none, some, List, [], ◌∷◌, ◌++◌, map, if◌then◌else◌,
  leb, any, elem, string_eq,
}
use trade_sentry.Compliance.Model.{ComplianceResult, rule_definitions}
use trade_sentry.Investigation.Model.{
  InvestigationState, TimelineRecord, ToolCallRecord, AuditEvent, tool_called, hold_action,
}
use trade_sentry.Investigation.World.{World, Outcome, returned, raised}

-- What a node's update makes of the state, with the audit events it records.
pub record Step : Type 0 where
  pub state : InvestigationState
  pub events : List AuditEvent

abbrev pub quiet : InvestigationState → Step
quiet s = record { state = s; events = [] }

-- the first `n` characters
abbrev pub first_chars : ℕ → String → String
first_chars zero s = String.[]
first_chars (suc n) String.[] = String.[]
first_chars (suc n) (String.◌∷◌ c s) = String.◌∷◌ c (first_chars n s)

-- `validate_compliance_rule_ids`
unfoldable pub validate_compliance_rule_ids : ComplianceResult → Outcome ComplianceResult
validate_compliance_rule_ids r =
    if any (λ f. not (elem f.rule_id (map (λ d. d.rule_id) rule_definitions))) r.findings
    then raised "UnknownComplianceRuleError"
    else returned r

-- the result, the record, the budget left and the errors
pub record ToolCall {ℓ} (A : Type ℓ) : Type ℓ where
  pub result : Option A
  pub call : ToolCallRecord
  pub remaining : ℕ
  pub errors : List String
  pub event : AuditEvent

module _ (w : World) where
  open w use {now, called_at, duration_ms, inputs_hash}

  abbrev pub timeline :
      InvestigationState → (node_name status detail : String) → List TimelineRecord
  timeline s node_name status detail =
      s.timeline
      ++ record {
        node_name = node_name;
        status = status;
        occurred_at = now node_name;
        detail = detail;
      }
        ∷ []

  abbrev pub tool_record : (tool_name hash status : String) → ToolCallRecord
  tool_record tool_name hash status = record {
    tool_name = tool_name;
    inputs_hash = hash;
    duration_ms = duration_ms tool_name;
    status = status;
    called_at = called_at tool_name;
  }

  abbrev pub tool_event : InvestigationState → (tool_name hash status : String) → AuditEvent
  tool_event s tool_name hash status = record {
    case_id = s.case_id;
    ibu_id = s.ibu_id;
    actor_id = "investigation-orchestrator";
    actor_role = "AGENT";
    event_type = tool_called;
    payload_ref =
        "tool=" + (tool_name + (";inputs=" + (first_chars 12 hash + (";status=" + status))));
  }

  module _ {ℓ} {A : Type ℓ} where
    abbrev finish :
        InvestigationState → (tool_name hash status : String) → List String → Option A → ToolCall A
    finish s tool_name hash status errors result = record {
      result = result;
      call = tool_record tool_name hash status;
      remaining = s.tool_budget_remaining - 1;
      errors = errors;
      event = tool_event s tool_name hash status;
    }

    abbrev attempt : InvestigationState → (tool_name hash : String) → Outcome A → ToolCall A
    attempt s tool_name hash (returned a) = finish s tool_name hash "COMPLETED" s.errors (some a)
    attempt s tool_name hash (raised e) =
        finish s tool_name hash "DATA_UNAVAILABLE"
          (s.errors ++ (tool_name + (" unavailable (" + (e + ")"))) ∷ []) none

    -- The operation runs only while some budget is left.
    unfoldable pub record_tool_call :
        InvestigationState
        → (tool_name : String) → (fingerprint : Option String) → Outcome A
        → ToolCall A
    record_tool_call s tool_name fingerprint operation =
        let hash = inputs_hash s.case_id fingerprint in
        if leb s.tool_budget_remaining 0
        then finish s tool_name hash "BUDGET_EXHAUSTED"
            (s.errors ++ ("Tool budget exhausted before " + tool_name) ∷ []) none
        else attempt s tool_name hash operation

    -- `_failure_update`, merged into the state
    unfoldable pub failure_update :
        InvestigationState → ToolCall A → (node_name stop_reason : String) → Step
    failure_update s c node_name stop_reason = record {
      state = record s {
        tool_calls_made = s.tool_calls_made ++ c.call ∷ [];
        tool_budget_remaining = c.remaining;
        errors = c.errors;
        requires_human_review = true;
        recommended_action = some hold_action;
        stop_reason = some stop_reason;
        timeline = timeline s node_name "DATA_UNAVAILABLE" "Service call unavailable";
      };
      events = c.event ∷ [];
    }
