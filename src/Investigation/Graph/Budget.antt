-- ===== src/Investigation/Graph/Budget.antt =====
-- What a run of the graph does with its tool budget.
use mathlib.Core.Path.{subst}
use trade_sentry.Prelude.{
  ℕ, ◌+◌, ◌≡◌, ◌∙◌, refl, String, Option, none, some, is_some, List, [], ◌∷◌, inl, inr, arith,
  Bool-cases, elem, leb, is_empty, string_eq,
}
use trade_sentry.Dna.{TransactionDna}
use trade_sentry.Investigation.Model.{InvestigationState, ToolSelectionPlan}
use trade_sentry.Investigation.Planner.{approved_agent_tools}
use trade_sentry.Investigation.World.{World, Outcome, returned, raised}
use trade_sentry.Investigation.Calls.{ToolCall, failure_update}
use trade_sentry.Investigation.Calls.Spending.{
  executed, allotted, record_tool_call-spends, allotted-call,
}
use trade_sentry.Investigation.Nodes.{
  settle, write_ucp, write_dna, write_match, check_match, keep_plan, load_case, check_completeness,
  run_ucp_rules, ucp_operation, cross_ibu_operation, build_transaction_dna, cross_ibu_check,
  fraud_triage, triage_context,
}
use trade_sentry.Investigation.Tools.{
  Tool, price, vessel, entity, sanctions, tool_name, Progress, started, run_tool, run_tools,
  blocked, concluded, call_selected, dispatch, conditional_tool_calls, selected_tools,
}
use trade_sentry.Investigation.Evidence.{aggregate_evidence}
use trade_sentry.Investigation.Assessment.{risk_assessment, pass_gate, settlement_readiness}
use trade_sentry.Investigation.Graph.{
  Node, loading, checking, ucp, dna, matching, triage, tools, aggregation, assessment, gate,
  readiness, visit, Ending, finished, stopped, unfinished, graph_fuel, conclude, budget_or_default,
  Run, run,
}
use trade_sentry.Investigation.Graph.Reach.{Invariant, EndsIn, traverse-EndsIn}

module _ (w : World) (s : InvestigationState) where
  -- a node that awaits one service
  settle-allotted {ℓ} :
      {A : Type ℓ} (c : ToolCall A) (name reason : String) (write : A → InvestigationState)
      (o : Option A)
      → executed (c.call ∷ []) + c.remaining ≡ s.tool_budget_remaining
      → allotted (settle w s c name reason write o).state ≡ allotted s
  unfolding failure_update
  settle-allotted c name reason write none e =
      allotted-call s.tool_calls_made c.call c.remaining _ e
  settle-allotted c name reason write (some a) e =
      allotted-call s.tool_calls_made c.call c.remaining _ e

  load_case-allotted : allotted (load_case w s).state ≡ allotted s
  unfolding load_case
  load_case-allotted = elim (Bool-cases (is_empty (w.list_documents s.case_id))) [
    | inl e ↦ rw e refl
    | inr e ↦ rw e refl
  ]

  run_ucp_rules-allotted : allotted (run_ucp_rules w s).state ≡ allotted s
  unfolding run_ucp_rules
  run_ucp_rules-allotted =
      settle-allotted _ _ _ (write_ucp w s) _
        (record_tool_call-spends w s "ucp_rules" none (ucp_operation w s.case_id))

  build_transaction_dna-allotted : allotted (build_transaction_dna w s).state ≡ allotted s
  unfolding build_transaction_dna
  build_transaction_dna-allotted = settle-allotted _ _ _ (write_dna w s) _ (
      record_tool_call-spends w s "transaction_dna" none
        (w.transaction_dna s.case_id s.ibu_id s.extraction_results (w.now "transaction_dna")))

  check_match-allotted :
      (o : Option TransactionDna) → allotted (check_match w s o).state ≡ allotted s
  check_match-allotted none = refl
  check_match-allotted (some d) = elim (Bool-cases (is_some d.bl_number_normalized)) [
    | inl e ↦ rw e (
        settle-allotted _ _ _ (write_match w s) _ (
          record_tool_call-spends w s "cross_ibu_check" (some d.dna_fingerprint)
            (cross_ibu_operation w d)))
    | inr e ↦ rw e refl
  ]

  keep_plan-allotted :
      (o : Outcome ToolSelectionPlan) → allotted (keep_plan w s o).state ≡ allotted s
  keep_plan-allotted (returned p) = refl
  keep_plan-allotted (raised e) = refl

module _ (w : World) (d : TransactionDna) where
  run_tool-allotted :
      (p : Progress) (t : Tool) → allotted (run_tool w d p t).state ≡ allotted p.state
  unfolding run_tool
  run_tool-allotted p price = allotted-call p.state.tool_calls_made _ _ _ (
      record_tool_call-spends w p.state (tool_name price) (some d.dna_fingerprint)
        (w.run_price_benchmark d))
  run_tool-allotted p vessel = allotted-call p.state.tool_calls_made _ _ _ (
      record_tool_call-spends w p.state (tool_name vessel) (some d.dna_fingerprint)
        (w.run_vessel_verification d))
  run_tool-allotted p entity = allotted-call p.state.tool_calls_made _ _ _ (
      record_tool_call-spends w p.state (tool_name entity) (some d.dna_fingerprint)
        (w.run_entity_verification d))
  run_tool-allotted p sanctions = allotted-call p.state.tool_calls_made _ _ _ (
      record_tool_call-spends w p.state (tool_name sanctions) (some d.dna_fingerprint)
        (w.run_sanctions_screening d))

  run_tools-allotted :
      (p : Progress) (ts : List Tool) → allotted (run_tools w d p ts).state ≡ allotted p.state
  unfolding run_tools
  run_tools-allotted p [] = refl
  run_tools-allotted p (t ∷ ts) = elim (Bool-cases (elem (tool_name t) approved_agent_tools)) [
    | inr e ↦ rw e (run_tools-allotted (blocked w d p t) ts)
    | inl e ↦ elim (Bool-cases (leb p.state.tool_budget_remaining 0)) [
      | inl f ↦ rw (e, f) refl
      | inr f ↦ rw (e, f) (run_tools-allotted (run_tool w d p t) ts ∙ run_tool-allotted p t)
    ]
  ]

  concluded-allotted :
      (s : InvestigationState) (p : Progress)
      → allotted p.state ≡ allotted s
      → allotted (concluded w d s p).state ≡ allotted s
  concluded-allotted s p k = elim (Bool-cases p.exhausted) [ inl e ↦ rw e k | inr e ↦ rw e k ]

  call_selected-allotted :
      (s : InvestigationState) (plan : ToolSelectionPlan)
      → allotted (call_selected w d s plan).state ≡ allotted s
  unfolding call_selected
  call_selected-allotted s plan =
      concluded-allotted s (run_tools w d (started s) (selected_tools plan))
        (run_tools-allotted (started s) (selected_tools plan))

module _ (w : World) where
  dispatch-allotted :
      (s : InvestigationState) (plan : Option ToolSelectionPlan) (d : Option TransactionDna)
      → allotted (dispatch w s plan d).state ≡ allotted s
  dispatch-allotted s (some plan) (some d) = call_selected-allotted w d s plan
  dispatch-allotted s (some plan) none = refl
  dispatch-allotted s none d = refl

  visit-allotted : (n : Node) (s : InvestigationState) → allotted (visit w n s).state ≡ allotted s
  unfolding visit check_completeness cross_ibu_check fraud_triage conditional_tool_calls
      aggregate_evidence risk_assessment pass_gate settlement_readiness
  visit-allotted loading s = load_case-allotted w s
  visit-allotted checking s = refl
  visit-allotted ucp s = run_ucp_rules-allotted w s
  visit-allotted dna s = build_transaction_dna-allotted w s
  visit-allotted matching s = check_match-allotted w s s.transaction_dna
  visit-allotted triage s = keep_plan-allotted w s (w.plan (triage_context w s))
  visit-allotted tools s = dispatch-allotted s s.tool_selection_plan s.transaction_dna
  visit-allotted aggregation s = refl
  visit-allotted assessment s = refl
  visit-allotted gate s = refl
  visit-allotted readiness s = refl

  budget-Invariant :
      (b : ℕ) → Invariant w (λ n s. allotted s ≡ b) (λ s. allotted s ≡ b) (λ s. allotted s ≡ b)
  budget-Invariant b = record {
    onward = λ n n' s p e f. visit-allotted n s ∙ p;
    at_end = λ n s p e f. visit-allotted n s ∙ p;
    at_interrupt = λ n s p e. p;
  }

Spent : ℕ → Option Run → Type 0
Spent b none = Unit
Spent b (some r) = allotted r.response.state ≡ b

module _ (w : World) (case_id ibu_id : String) (tool_budget : Option ℕ) where
  conclude-Spent :
      (b : ℕ) (e : Ending)
      → EndsIn (λ s. allotted s ≡ b) (λ s. allotted s ≡ b) e
      → Spent b (conclude w e)
  unfolding Spent
  conclude-Spent b (finished s es) h = h
  conclude-Spent b (stopped s es) h = h
  conclude-Spent b unfinished h = tt

  -- In the state that an investigation ends with, the calls whose operation ran and the budget that
  -- is left add up to the budget that it started with, which is that of the settings unless one is
  -- given.
  pub run_budget :
      (r : Run)
      → run w case_id ibu_id tool_budget ≡ some r
      → executed r.response.state.tool_calls_made + r.response.state.tool_budget_remaining
        ≡ budget_or_default w.default_tool_budget tool_budget
  unfolding run Spent
  run_budget r e = subst (Spent (budget_or_default w.default_tool_budget tool_budget)) e (
      conclude-Spent _ _ (
        traverse-EndsIn w (budget-Invariant w (budget_or_default w.default_tool_budget tool_budget))
          graph_fuel loading _ (omega arith)))
