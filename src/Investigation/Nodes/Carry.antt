-- ===== src/Investigation/Nodes/Carry.antt =====
-- What the nodes of the graph pass on of the state.
use trade_sentry.Prelude.{
  ◌≡◌, ◌∙◌, refl, true, false, Option, none, some, is_some, String, arith, ◌≢◌, Bool-cases, inl,
  inr,
}
use trade_sentry.Compliance.Model.{LcRequirements, ComplianceResult}
use trade_sentry.CrossIbu.Model.{CrossIbuMatch}
use trade_sentry.Dna.{TransactionDna}
use trade_sentry.Investigation.Model.{InvestigationState, ToolSelectionPlan}
use trade_sentry.Investigation.World.{World, Outcome, returned, raised}
use trade_sentry.Investigation.Calls.{ToolCall, failure_update}
use trade_sentry.Investigation.Nodes.{
  settle, write_ucp, write_dna, write_match, match_dna, check_match, keep_plan, run_ucp_rules,
  build_transaction_dna, cross_ibu_check, fraud_triage, triage_context,
}

-- The facts of the case are unchanged, and a required review stays required.
pub record Carries (s t : InvestigationState) : Type 0 where
  pub completeness : t.completeness ≡ s.completeness
  pub compliance_result : t.compliance_result ≡ s.compliance_result
  pub transaction_dna : t.transaction_dna ≡ s.transaction_dna
  pub review : t.requires_human_review ≡ false → s.requires_human_review ≡ false

pub Carries-refl : (s : InvestigationState) → Carries s s
Carries-refl s = record {
  completeness = refl;
  compliance_result = refl;
  transaction_dna = refl;
  review = λ e. e;
}

pub Carries-trans : {s t u : InvestigationState} → Carries s t → Carries t u → Carries s u
Carries-trans a b = record {
  completeness = b.completeness ∙ a.completeness;
  compliance_result = b.compliance_result ∙ a.compliance_result;
  transaction_dna = b.transaction_dna ∙ a.transaction_dna;
  review = λ e. a.review (b.review e);
}

-- What the node of `run_ucp_rules` leaves: the completeness, and a result if no review is required.
pub record Ruled (s t : InvestigationState) : Type 0 where
  pub completeness : t.completeness ≡ s.completeness
  pub answered : t.requires_human_review ≡ false → is_some t.compliance_result ≡ true

-- What the node of `build_transaction_dna` leaves.
pub record Fingerprinted (s t : InvestigationState) : Type 0 where
  pub completeness : t.completeness ≡ s.completeness
  pub compliance_result : t.compliance_result ≡ s.compliance_result
  pub review : t.requires_human_review ≡ false → s.requires_human_review ≡ false
  pub answered : t.requires_human_review ≡ false → is_some t.transaction_dna ≡ true

module _ (w : World) (s : InvestigationState) where
  module _ {ℓ} {A : Type ℓ} (c : ToolCall A) (name reason : String) where
    failure_update-review : (failure_update w s c name reason).state.requires_human_review ≢ false
    unfolding failure_update
    failure_update-review e = ground arith

  settle-Ruled :
      (c : ToolCall (LcRequirements × ComplianceResult)) (name reason : String)
      (o : Option (LcRequirements × ComplianceResult))
      → Ruled s (settle w s c name reason (write_ucp w s) o).state
  unfolding failure_update
  settle-Ruled c name reason none = record {
    completeness = refl;
    answered = λ e. absurd (failure_update-review c name reason e);
  }
  settle-Ruled c name reason (some r) = record { completeness = refl; answered = λ _. refl }

  settle-Fingerprinted :
      (c : ToolCall TransactionDna) (name reason : String) (o : Option TransactionDna)
      → Fingerprinted s (settle w s c name reason (write_dna w s) o).state
  unfolding failure_update
  settle-Fingerprinted c name reason none = record {
    completeness = refl;
    compliance_result = refl;
    review = λ e. absurd (failure_update-review c name reason e);
    answered = λ e. absurd (failure_update-review c name reason e);
  }
  settle-Fingerprinted c name reason (some r) = record {
    completeness = refl;
    compliance_result = refl;
    review = λ e. e;
    answered = λ _. refl;
  }

  settle-Carries :
      (c : ToolCall CrossIbuMatch) (name reason : String) (o : Option CrossIbuMatch)
      → Carries s (settle w s c name reason (write_match w s) o).state
  unfolding failure_update
  settle-Carries c name reason none = record {
    completeness = refl;
    compliance_result = refl;
    transaction_dna = refl;
    review = λ e. absurd (failure_update-review c name reason e);
  }
  settle-Carries c name reason (some r) = record {
    completeness = refl;
    compliance_result = refl;
    transaction_dna = refl;
    review = λ e. e;
  }

  pub run_ucp_rules-Ruled : Ruled s (run_ucp_rules w s).state
  unfolding run_ucp_rules
  run_ucp_rules-Ruled = settle-Ruled _ _ _ _

  pub build_transaction_dna-Fingerprinted : Fingerprinted s (build_transaction_dna w s).state
  unfolding build_transaction_dna
  build_transaction_dna-Fingerprinted = settle-Fingerprinted _ _ _ _

  match_dna-Carries : (dna : TransactionDna) → Carries s (match_dna w s dna).state
  match_dna-Carries dna = settle-Carries _ _ _ _

  check_match-Carries : (o : Option TransactionDna) → Carries s (check_match w s o).state
  check_match-Carries none = record {
    completeness = refl;
    compliance_result = refl;
    transaction_dna = refl;
    review = λ e. e;
  }
  check_match-Carries (some dna) = elim (Bool-cases (is_some dna.bl_number_normalized)) [
    | inl e ↦ rw e (match_dna-Carries dna)
    | inr e ↦ rw e (record {
      completeness = refl;
      compliance_result = refl;
      transaction_dna = refl;
      review = λ f. f;
    })
  ]

  pub cross_ibu_check-Carries : Carries s (cross_ibu_check w s).state
  unfolding cross_ibu_check
  cross_ibu_check-Carries = check_match-Carries s.transaction_dna

  keep_plan-Carries : (o : Outcome ToolSelectionPlan) → Carries s (keep_plan w s o).state
  keep_plan-Carries (returned p) = record {
    completeness = refl;
    compliance_result = refl;
    transaction_dna = refl;
    review = λ e. e;
  }
  keep_plan-Carries (raised e) = record {
    completeness = refl;
    compliance_result = refl;
    transaction_dna = refl;
    review = λ f. f;
  }

  pub fraud_triage-Carries : Carries s (fraud_triage w s).state
  unfolding fraud_triage
  fraud_triage-Carries = keep_plan-Carries (w.plan (triage_context w s))
