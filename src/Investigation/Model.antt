-- ===== src/Investigation/Model.antt =====
-- models/investigation.py, and the audit events of apps/api/tradesentry_api/audit_store.py.
use trade_sentry.Prelude.{ℕ, String, Bool, false, Option, none, List, []}
use trade_sentry.Prelude.Decimal.{Decimal}
use trade_sentry.Contracts.Documents.{DocumentType, DocumentStatus, DocumentCompleteness}
use trade_sentry.Contracts.Extraction.{ExtractionResult}
use trade_sentry.Compliance.Model.{LcRequirements, ComplianceResult, Evidence}
use trade_sentry.Dna.{TransactionDna}
use trade_sentry.CrossIbu.Model.{CrossIbuMatch}
use trade_sentry.Fraud.{
  PriceBenchmarkResult, VesselVerificationResult, EntityVerificationResult,
  SanctionsScreeningResult,
}

abbrev pub ready_action : String
ready_action = "READY FOR BANK SETTLEMENT WORKFLOW"

abbrev pub hold_action : String
hold_action = "HOLD — REVIEW REQUIRED"

pub data RiskBand : Type 0 where
  low medium high : RiskBand

pub data EvidenceSeverity : Type 0 where
  info advisory review material high : EvidenceSeverity

pub record DocumentSummary : Type 0 where
  pub document_id : String
  pub document_type : DocumentType
  pub status : DocumentStatus
  pub overall_confidence : Option Decimal

-- A value of the dictionary `structured_detail`.
pub data Detail : Type 0 where
  text : String → Detail
  flag : Bool → Detail
  texts : List String → Detail
  score : Decimal → Detail
  millionths : ℕ → Detail
  absent : Detail
  finding_evidence : Evidence → Detail

pub record EvidenceRecord : Type 0 where
  pub source : String
  pub finding_type : String
  pub severity : EvidenceSeverity
  pub summary : String
  pub structured_detail : List (String × Detail)
  pub evidence_ref : String

-- `duration_ms` is in thousandths of a millisecond.
pub record ToolCallRecord : Type 0 where
  pub tool_name : String
  pub inputs_hash : String
  pub duration_ms : ℕ
  pub status : String
  pub called_at : ℕ

pub record TimelineRecord : Type 0 where
  pub node_name : String
  pub status : String
  pub occurred_at : ℕ
  pub detail : String

pub record ToolSelectionPlan : Type 0 where
  pub run_price_benchmark : Bool
  pub run_vessel_verification : Bool
  pub run_entity_verification : Bool
  pub run_sanctions : Bool
  pub reasoning : String

pub record TriageContext : Type 0 where
  pub cross_ibu_levels : List String
  pub unit_value_usd_per_unit : Option Decimal
  pub conflict_fields : List String
  pub both_trade_entities_missing : Bool
  pub sanctions_already_run : Bool

pub record InvestigationState : Type 0 where
  pub case_id : String
  pub ibu_id : String
  pub documents : List DocumentSummary
  pub extraction_results : List ExtractionResult
  pub completeness : Option DocumentCompleteness
  pub lc_requirements : Option LcRequirements
  pub compliance_result : Option ComplianceResult
  pub transaction_dna : Option TransactionDna
  pub cross_ibu_matches : List CrossIbuMatch
  pub price_benchmark : Option PriceBenchmarkResult
  pub vessel_verification : Option VesselVerificationResult
  pub entity_verifications : List EntityVerificationResult
  pub sanctions_result : Option SanctionsScreeningResult
  pub tool_selection_plan : Option ToolSelectionPlan
  pub evidence : List EvidenceRecord
  pub risk_score : Option ℕ
  pub risk_band : Option RiskBand
  pub recommended_action : Option String
  pub tool_calls_made : List ToolCallRecord
  pub tool_budget_remaining : ℕ
  pub errors : List String
  pub timeline : List TimelineRecord
  pub investigation_complete : Bool
  pub requires_human_review : Bool
  pub stop_reason : Option String

-- the state that `run` starts from
abbrev pub initial_state : (case_id ibu_id : String) → (tool_budget : ℕ) → InvestigationState
initial_state case_id ibu_id tool_budget = record {
  case_id = case_id;
  ibu_id = ibu_id;
  documents = [];
  extraction_results = [];
  completeness = none;
  lc_requirements = none;
  compliance_result = none;
  transaction_dna = none;
  cross_ibu_matches = [];
  price_benchmark = none;
  vessel_verification = none;
  entity_verifications = [];
  sanctions_result = none;
  tool_selection_plan = none;
  evidence = [];
  risk_score = none;
  risk_band = none;
  recommended_action = none;
  tool_calls_made = [];
  tool_budget_remaining = tool_budget;
  errors = [];
  timeline = [];
  investigation_complete = false;
  requires_human_review = false;
  stop_reason = none;
}

pub data WorkflowStatus : Type 0 where
  completed interrupted : WorkflowStatus

pub record InvestigationResponse : Type 0 where
  pub state : InvestigationState
  pub workflow_status : WorkflowStatus

pub data AuditEventType : Type 0 where
  tool_called agent_decision risk_scored human_review_required : AuditEventType

pub record AuditEvent : Type 0 where
  pub case_id : String
  pub ibu_id : String
  pub actor_id : String
  pub actor_role : String
  pub event_type : AuditEventType
  pub payload_ref : String
