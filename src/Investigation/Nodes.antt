-- ===== src/Investigation/Nodes.antt =====
-- investigation_orchestrator.py: the nodes from `load_case` to `fraud_triage`.
pub mod Carry
use Prim.Native.String.{◌++◌ as ◌+◌}
use trade_sentry.Prelude.{
  String, Bool, true, false, ◌&&◌, not, Option, none, some, List, [], ◌∷◌, ◌++◌, map, is_some,
  length, is_empty, if◌then◌else◌,
}
use trade_sentry.Prelude.Text.{show_nat}
use trade_sentry.Contracts.Documents.{
  type_eq, CompletenessStatus, complete, incomplete, pending_lc, is_complete,
}
use trade_sentry.Contracts.Extraction.{ExtractionResult, DocumentRecord}
use trade_sentry.Compliance.Model.{LcRequirements, ComplianceResult}
use trade_sentry.Compliance.Engine.{evaluate_compliance}
use trade_sentry.Dna.{TransactionDna}
use trade_sentry.CrossIbu.Model.{
  MatchLevel, exact, near, contextual, nothing, CrossIbuMatch, signal_from_dna,
}
use trade_sentry.CrossIbu.Match.{find_best_match}
use trade_sentry.Investigation.Model.{
  InvestigationState, DocumentSummary, TriageContext, ToolSelectionPlan, hold_action,
}
use trade_sentry.Investigation.Completeness.{completeness_of}
use trade_sentry.Investigation.World.{World, Outcome, returned, raised, ◌>>=◌}
use trade_sentry.Investigation.Calls.{
  Step, quiet, timeline, ToolCall, record_tool_call, failure_update, validate_compliance_rule_ids,
}

abbrev pub summary_of : DocumentRecord → DocumentSummary
summary_of d = record {
  document_id = d.id;
  document_type = d.document_type;
  status = d.status;
  overall_confidence = d.overall_confidence;
}

abbrev pub extractions_of : List DocumentRecord → List ExtractionResult
extractions_of [] = []
extractions_of (d ∷ ds) =
    let rest = extractions_of ds in elim d.extraction [ none ↦ rest | some e ↦ e ∷ rest ]

abbrev status_value : CompletenessStatus → String
status_value complete = "COMPLETE"
status_value incomplete = "INCOMPLETE"
status_value pending_lc = "PENDING_LC"

abbrev pub level_value : MatchLevel → String
level_value exact = "EXACT"
level_value near = "NEAR"
level_value contextual = "CONTEXTUAL"
level_value nothing = "NONE"

abbrev bl_number_of : Option TransactionDna → Option String
bl_number_of none = none
bl_number_of (some d) = d.bl_number_normalized

abbrev both_entities_missing : Option TransactionDna → Bool
both_entities_missing none = false
both_entities_missing (some d) =
    not (is_some d.exporter_normalized) && not (is_some d.importer_normalized)

module _ (w : World) where
  open w use {
    host, match_host, list_documents, compliance_facts, save_compliance, transaction_dna, now,
  }

  unfoldable pub load_case : InvestigationState → Step
  load_case s =
      let documents = list_documents s.case_id in
      let loaded = record s {
        documents = map summary_of documents;
        extraction_results = extractions_of documents;
        timeline =
            timeline w s "load_case" "COMPLETED"
              ("Loaded " + (show_nat (length documents) + " documents"));
      } in
      quiet (
        if is_empty documents
        then record loaded {
          errors = s.errors ++ "No documents available for investigation" ∷ [];
          stop_reason = some "NO_DOCUMENTS";
          investigation_complete = true;
        }
        else loaded)

  unfoldable pub check_completeness : InvestigationState → Step
  check_completeness s =
      let c = completeness_of s.documents s.extraction_results in
      let done = is_complete c.status in
      quiet (record s {
        completeness = some c;
        requires_human_review = not done;
        recommended_action = if done then s.recommended_action else some hold_action;
        stop_reason = if done then s.stop_reason else some "INCOMPLETE_DOCUMENT_SET";
        timeline =
            timeline w s "check_completeness" (status_value c.status)
              "Deterministic document completeness check";
      })

  -- the operation of `run_ucp_rules`
  unfoldable pub ucp_operation : String → Outcome (LcRequirements × ComplianceResult)
  ucp_operation case_id = do
    facts ← compliance_facts case_id
    result ← validate_compliance_rule_ids (evaluate_compliance host facts)
    _ ← save_compliance result
    returned (facts.lc, result)

  -- The end of a node that awaits one service: its result written by `write`, or the failure's
  -- update.
  abbrev pub settle {ℓ} :
      {A : Type ℓ}
      → InvestigationState
      → ToolCall A
      → (node_name stop_reason : String) → (A → InvestigationState)
      → Option A
      → Step
  settle s c node_name stop_reason write none = failure_update w s c node_name stop_reason
  settle s c node_name stop_reason write (some a) = record {
    state = record (write a) {
      tool_calls_made = s.tool_calls_made ++ c.call ∷ [];
      tool_budget_remaining = c.remaining;
      errors = c.errors;
    };
    events = c.event ∷ [];
  }

  abbrev pub write_ucp : InvestigationState → LcRequirements × ComplianceResult → InvestigationState
  write_ucp s r = record s {
    lc_requirements = some r.0;
    compliance_result = some r.1;
    timeline = timeline w s "run_ucp_rules" "COMPLETED" "Deterministic UCP engine only";
  }

  unfoldable pub run_ucp_rules : InvestigationState → Step
  run_ucp_rules s =
      let c = record_tool_call w s "ucp_rules" none (ucp_operation s.case_id) in
      settle s c "run_ucp_rules" "RUN_UCP_RULES_UNAVAILABLE" (write_ucp s) c.result

  abbrev pub write_dna : InvestigationState → TransactionDna → InvestigationState
  write_dna s dna = record s {
    transaction_dna = some dna;
    timeline = timeline w s "build_transaction_dna" "COMPLETED" "Deterministic normalization";
  }

  unfoldable pub build_transaction_dna : InvestigationState → Step
  build_transaction_dna s =
      let c =
        record_tool_call w s "transaction_dna" none
          (transaction_dna s.case_id s.ibu_id s.extraction_results (now "transaction_dna")) in
      settle s c "build_transaction_dna" "BUILD_TRANSACTION_DNA_UNAVAILABLE" (write_dna s) c.result

  unfoldable pub cross_ibu_operation : TransactionDna → Outcome CrossIbuMatch
  cross_ibu_operation dna = do
    candidates ← w.find_candidates (signal_from_dna dna)
    returned
        (find_best_match match_host (signal_from_dna dna) candidates (now "cross_ibu_operation"))

  abbrev pub write_match : InvestigationState → CrossIbuMatch → InvestigationState
  write_match s m = record s {
    cross_ibu_matches = m ∷ [];
    timeline = timeline w s "cross_ibu_check" (level_value m.match_level) m.explanation;
  }

  abbrev pub skipped_match : InvestigationState → Step
  skipped_match s =
      quiet (record s {
        timeline = timeline w s "cross_ibu_check" "SKIPPED" "No normalized B/L number";
      })

  abbrev pub match_dna : InvestigationState → TransactionDna → Step
  match_dna s dna =
      let c =
        record_tool_call w s "cross_ibu_check" (some dna.dna_fingerprint)
          (cross_ibu_operation dna) in
      settle s c "cross_ibu_check" "CROSS_IBU_CHECK_UNAVAILABLE" (write_match s) c.result

  abbrev pub check_match : InvestigationState → Option TransactionDna → Step
  check_match s none = skipped_match s
  check_match s (some dna) =
      if is_some dna.bl_number_normalized then match_dna s dna else skipped_match s

  unfoldable pub cross_ibu_check : InvestigationState → Step
  cross_ibu_check s = check_match s s.transaction_dna

  unfoldable pub triage_context : InvestigationState → TriageContext
  triage_context s = record {
    cross_ibu_levels = map (λ m. level_value m.match_level) s.cross_ibu_matches;
    unit_value_usd_per_unit = elim s.transaction_dna [
      | none ↦ none
      | some d ↦ d.unit_value_usd_per_unit
    ];
    conflict_fields = elim s.transaction_dna [
      | none ↦ []
      | some d ↦ map (λ c. c.field_name) d.conflicts
    ];
    both_trade_entities_missing = both_entities_missing s.transaction_dna;
    sanctions_already_run = is_some s.sanctions_result;
  }

  -- the plan that is kept when the planner's output is rejected
  abbrev pub fallback_plan : InvestigationState → ToolSelectionPlan
  fallback_plan s = record {
    run_price_benchmark = false;
    run_vessel_verification = false;
    run_entity_verification = false;
    run_sanctions = not (is_some s.sanctions_result);
    reasoning = "Planner output was rejected; only mandatory sanctions screening retained.";
  }

  abbrev pub planned : InvestigationState → ToolSelectionPlan → List String → Step
  planned s plan errors = quiet (record s {
    tool_selection_plan = some plan;
    errors = errors;
    timeline = timeline w s "fraud_triage" "VALIDATED" plan.reasoning;
  })

  abbrev pub keep_plan : InvestigationState → Outcome ToolSelectionPlan → Step
  keep_plan s (returned plan) = planned s plan s.errors
  keep_plan s (raised e) =
      planned s (fallback_plan s)
        (s.errors ++ ("Triage planner output rejected (" + (e + ")")) ∷ [])

  unfoldable pub fraud_triage : InvestigationState → Step
  unfolding triage_context
  fraud_triage s = keep_plan s (w.plan (triage_context s))
