-- ===== src/Investigation/Tools/Carry.antt =====
-- What `conditional_tool_calls` passes on of the state.
use trade_sentry.Prelude.{
  refl, Option, none, some, List, [], ◌∷◌, elem, string_eq, leb, arith, Bool-cases, inl, inr,
}
use trade_sentry.Dna.{TransactionDna}
use trade_sentry.Investigation.Model.{InvestigationState, ToolSelectionPlan}
use trade_sentry.Investigation.World.{World}
use trade_sentry.Fraud.{
  PriceBenchmarkResult, VesselVerificationResult, EntityVerificationResult,
  SanctionsScreeningResult,
}
use trade_sentry.Investigation.Calls.{ToolCall}
use trade_sentry.Investigation.Planner.{approved_agent_tools}
use trade_sentry.Investigation.Nodes.Carry.{Carries, Carries-refl, Carries-trans}
use trade_sentry.Investigation.Tools.{
  Tool, price, vessel, entity, sanctions, tool_name, Progress, started, run_tool, run_tools,
  blocked, concluded, call_selected, dispatch, conditional_tool_calls, keep_price, keep_vessel,
  keep_entities, keep_sanctions, selected_tools, recorded, call,
}

keep_price-Carries :
    (w : World) (dna : TransactionDna) (s : InvestigationState) (o : Option PriceBenchmarkResult)
    → Carries s (keep_price w dna s o)
keep_price-Carries w dna s none = Carries-refl s
keep_price-Carries w dna s (some r) = record {
  completeness = refl;
  compliance_result = refl;
  transaction_dna = refl;
  review = λ e. e;
}

keep_vessel-Carries :
    (w : World) (dna : TransactionDna) (s : InvestigationState)
    (o : Option VesselVerificationResult)
    → Carries s (keep_vessel w dna s o)
keep_vessel-Carries w dna s none = Carries-refl s
keep_vessel-Carries w dna s (some r) = record {
  completeness = refl;
  compliance_result = refl;
  transaction_dna = refl;
  review = λ e. e;
}

keep_entities-Carries :
    (w : World) (dna : TransactionDna) (s : InvestigationState)
    (o : Option (List EntityVerificationResult))
    → Carries s (keep_entities w dna s o)
keep_entities-Carries w dna s none = Carries-refl s
keep_entities-Carries w dna s (some r) = record {
  completeness = refl;
  compliance_result = refl;
  transaction_dna = refl;
  review = λ e. e;
}

keep_sanctions-Carries :
    (w : World) (dna : TransactionDna) (s : InvestigationState)
    (o : Option SanctionsScreeningResult)
    → Carries s (keep_sanctions w dna s o)
keep_sanctions-Carries w dna s none = Carries-refl s
keep_sanctions-Carries w dna s (some r) = record {
  completeness = refl;
  compliance_result = refl;
  transaction_dna = refl;
  review = λ e. e;
}

module _ (w : World) (dna : TransactionDna) where
  recorded-Carries {ℓ} :
      {A : Type ℓ} (p : Progress) (c : ToolCall A) (t : InvestigationState)
      → Carries p.state t
      → Carries p.state (recorded w dna p c t).state
  recorded-Carries p c t k = record {
    completeness = k.completeness;
    compliance_result = k.compliance_result;
    transaction_dna = k.transaction_dna;
    review = k.review;
  }

  run_tool-Carries : (p : Progress) (t : Tool) → Carries p.state (run_tool w dna p t).state
  unfolding run_tool
  run_tool-Carries p price =
      recorded-Carries p (call w dna p price (w.run_price_benchmark dna)) _
        (keep_price-Carries w dna p.state _)
  run_tool-Carries p vessel =
      recorded-Carries p (call w dna p vessel (w.run_vessel_verification dna)) _
        (keep_vessel-Carries w dna p.state _)
  run_tool-Carries p entity =
      recorded-Carries p (call w dna p entity (w.run_entity_verification dna)) _
        (keep_entities-Carries w dna p.state _)
  run_tool-Carries p sanctions =
      recorded-Carries p (call w dna p sanctions (w.run_sanctions_screening dna)) _
        (keep_sanctions-Carries w dna p.state _)

  blocked-Carries : (p : Progress) (t : Tool) → Carries p.state (blocked w dna p t).state
  blocked-Carries p t = record {
    completeness = refl;
    compliance_result = refl;
    transaction_dna = refl;
    review = λ e. e;
  }

  run_tools-Carries : (p : Progress) (ts : List Tool) → Carries p.state (run_tools w dna p ts).state
  unfolding run_tools
  run_tools-Carries p [] = Carries-refl p.state
  run_tools-Carries p (t ∷ ts) = elim (Bool-cases (elem (tool_name t) approved_agent_tools)) [
    | inr e ↦ rw e (
        Carries-trans {s = p.state} {t = (blocked w dna p t).state}
          {u = (run_tools w dna (blocked w dna p t) ts).state} (blocked-Carries p t)
          (run_tools-Carries (blocked w dna p t) ts))
    | inl e ↦ elim (Bool-cases (leb p.state.tool_budget_remaining 0)) [
      | inl f ↦ rw (e, f) (Carries-refl p.state)
      | inr f ↦
          rw (e, f)
            (Carries-trans {s = p.state} {t = (run_tool w dna p t).state}
              {u = (run_tools w dna (run_tool w dna p t) ts).state} (run_tool-Carries p t)
              (run_tools-Carries (run_tool w dna p t) ts))
    ]
  ]

  concluded-Carries :
      (s : InvestigationState) (p : Progress)
      → Carries s p.state
      → Carries s (concluded w dna s p).state
  concluded-Carries s p k = elim (Bool-cases p.exhausted) [
    | inl e ↦ rw e (record {
      completeness = k.completeness;
      compliance_result = k.compliance_result;
      transaction_dna = k.transaction_dna;
      review = λ f. absurd (ground (arith, f));
    })
    | inr e ↦ rw e (record {
      completeness = k.completeness;
      compliance_result = k.compliance_result;
      transaction_dna = k.transaction_dna;
      review = k.review;
    })
  ]

  call_selected-Carries :
      (s : InvestigationState) (plan : ToolSelectionPlan)
      → Carries s (call_selected w dna s plan).state
  unfolding call_selected
  call_selected-Carries s plan =
      concluded-Carries s (run_tools w dna (started s) (selected_tools plan))
        (run_tools-Carries (started s) (selected_tools plan))

module _ (w : World) (s : InvestigationState) where
  dispatch-Carries :
      (plan : Option ToolSelectionPlan) (dna : Option TransactionDna)
      → Carries s (dispatch w s plan dna).state
  dispatch-Carries (some plan) (some dna) = call_selected-Carries w dna s plan
  dispatch-Carries (some plan) none = record {
    completeness = refl;
    compliance_result = refl;
    transaction_dna = refl;
    review = λ e. e;
  }
  dispatch-Carries none dna = record {
    completeness = refl;
    compliance_result = refl;
    transaction_dna = refl;
    review = λ e. e;
  }

  pub conditional_tool_calls-Carries : Carries s (conditional_tool_calls w s).state
  unfolding conditional_tool_calls
  conditional_tool_calls-Carries = dispatch-Carries s.tool_selection_plan s.transaction_dna
