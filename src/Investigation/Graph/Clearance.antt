-- ===== src/Investigation/Graph/Clearance.antt =====
-- What a run of the graph knows of the case on its way to the gate of human review.
use mathlib.Core.Path.{subst}
use trade_sentry.Prelude.{
  if◌then◌else◌, ◌≡◌, ◌∙◌, refl, ap, Bool, true, false, Option, none, some, is_some, inl, inr,
  arith, Bool-cases, ◌||◌, option_beq, string_eq,
}
use trade_sentry.Contracts.Documents.{DocumentCompleteness, is_complete}
use trade_sentry.Investigation.Model.{InvestigationState}
use trade_sentry.Investigation.World.{World}
use trade_sentry.Investigation.Completeness.{completeness_of}
use trade_sentry.Investigation.Nodes.{
  load_case, check_completeness, run_ucp_rules, build_transaction_dna, cross_ibu_check,
  fraud_triage,
}
use trade_sentry.Investigation.Nodes.Carry.{
  Carries, run_ucp_rules-Ruled, build_transaction_dna-Fingerprinted, cross_ibu_check-Carries,
  fraud_triage-Carries,
}
use trade_sentry.Investigation.Tools.{conditional_tool_calls}
use trade_sentry.Investigation.Tools.Carry.{conditional_tool_calls-Carries}
use trade_sentry.Investigation.Evidence.{aggregate_evidence}
use trade_sentry.Investigation.Risk.{risk_score}
use trade_sentry.Investigation.Assessment.{alerts, risk_assessment, pass_gate, settlement_readiness}
use trade_sentry.Investigation.Graph.{
  Node, loading, checking, ucp, dna, matching, triage, tools, aggregation, assessment, gate,
  readiness, successor, visit, interrupts,
}
use trade_sentry.Investigation.Graph.Reach.{Invariant}

abbrev pub has_complete_set : Option DocumentCompleteness → Bool
has_complete_set none = false
has_complete_set (some c) = is_complete c.status

-- What is known of the case where no review is required.
pub record Informed (s : InvestigationState) : Type 0 where
  pub documents : has_complete_set s.completeness ≡ true
  pub rules : s.requires_human_review ≡ false → is_some s.compliance_result ≡ true
  pub fingerprint : s.requires_human_review ≡ false → is_some s.transaction_dna ≡ true

-- Nothing in the state calls for a review.
pub record Cleared (s : InvestigationState) : Type 0 where
  pub documents : has_complete_set s.completeness ≡ true
  pub rules : is_some s.compliance_result ≡ true
  pub fingerprint : is_some s.transaction_dna ≡ true
  pub no_alert : alerts s ≡ false

Carries-Informed : {s t : InvestigationState} → Carries s t → Informed s → Informed t
Carries-Informed k i = record {
  documents = ap has_complete_set k.completeness ∙ i.documents;
  rules = λ e. ap is_some k.compliance_result ∙ i.rules (k.review e);
  fingerprint = λ e. ap is_some k.transaction_dna ∙ i.fingerprint (k.review e);
}

-- What holds where a node is entered.
abbrev pub Expected : Node → InvestigationState → Type 0
Expected loading s = s.stop_reason ≡ none
Expected checking s = Unit
Expected ucp s = has_complete_set s.completeness ≡ true
Expected dna s =
    (has_complete_set s.completeness ≡ true)
    × (s.requires_human_review ≡ false → is_some s.compliance_result ≡ true)
Expected gate s = s.requires_human_review ≡ false → Cleared s
Expected readiness s = Cleared s
Expected _ s = Informed s

or_false : (a b : Bool) → (a || b) ≡ false → (a ≡ false) × (b ≡ false)
or_false a b e = ground arith

alerts-assessed :
    (w : World) (s : InvestigationState) → alerts (risk_assessment w s).state ≡ alerts s
unfolding alerts risk_score risk_assessment
alerts-assessed w s = refl

alerts-passed : (w : World) (s : InvestigationState) → alerts (pass_gate w s).state ≡ alerts s
unfolding alerts risk_score pass_gate
alerts-passed w s = refl

pass_gate-Cleared : (w : World) (s : InvestigationState) → Cleared s → Cleared (pass_gate w s).state
unfolding pass_gate
pass_gate-Cleared w s c = record {
  documents = c.documents;
  rules = c.rules;
  fingerprint = c.fingerprint;
  no_alert = alerts-passed w s ∙ c.no_alert;
}

risk_assessment-gate :
    (w : World) (s : InvestigationState) → Informed s → Expected gate (risk_assessment w s).state
unfolding risk_assessment
risk_assessment-gate w s i e =
    let both = or_false s.requires_human_review (alerts s) e in
    record {
      documents = i.documents;
      rules = i.rules both.0;
      fingerprint = i.fingerprint both.0;
      no_alert = alerts-assessed w s ∙ both.1;
    }

aggregate_evidence-Carries :
    (w : World) (s : InvestigationState) → Carries s (aggregate_evidence w s).state
unfolding aggregate_evidence
aggregate_evidence-Carries w s = record {
  completeness = refl;
  compliance_result = refl;
  transaction_dna = refl;
  review = λ e. e;
}

-- Why a run came to its end.
pub data Finish (w : World) : InvestigationState → Type 0 where
  no_documents : (s : InvestigationState) → s.stop_reason ≡ none → Finish w (load_case w s).state
  ready : (s : InvestigationState) → Cleared s → Finish w (settlement_readiness w s).state

-- What holds of one end of an edge, moved to the other.
abbrev AtSome : (Node → Type 0) → Option Node → Type 0
AtSome P none = Unit
AtSome P (some n) = P n

edge : (P : Node → Type 0) {n n' : Node} → some n ≡ some n' → P n → P n'
edge P e p = subst (AtSome P) e p

module _ (w : World) (s : InvestigationState) where
  abbrev judged_complete : Bool
  judged_complete = is_complete (completeness_of s.documents s.extraction_results).status

  check_completeness-target :
      Expected (if judged_complete then ucp else gate) (check_completeness w s).state
  unfolding check_completeness
  check_completeness-target = elim (Bool-cases judged_complete) [
    | inl e ↦ rw e e
    | inr e ↦ rw e (λ h. absurd (ground (arith, e, h)))
  ]

  check_completeness-edge :
      (n' : Node)
      → successor checking (check_completeness w s).state ≡ some n'
      → Expected n' (check_completeness w s).state
  unfolding successor check_completeness
  check_completeness-edge n' f =
      edge (λ n. Expected n (check_completeness w s).state) f (check_completeness-target)

module _ (w : World) where
  onward_lem :
      (n n' : Node) (s : InvestigationState)
      → Expected n s
      → interrupts n s ≡ false
      → successor n (visit w n s).state ≡ some n'
      → Expected n' (visit w n s).state
  unfolding visit successor interrupts
  onward_lem loading n' s p e f =
      elim (Bool-cases (option_beq (load_case w s).state.stop_reason (some "NO_DOCUMENTS"))) [
        | inl h ↦ absurd (ground (arith, rw h at f))
        | inr h ↦ edge (λ n. Expected n (load_case w s).state) (rw h at f) tt
      ]
  onward_lem checking n' s p e f = check_completeness-edge w s n' f
  onward_lem ucp n' s p e f =
      let k = run_ucp_rules-Ruled w s in
      edge (λ n. Expected n (run_ucp_rules w s).state) f
        (ap has_complete_set k.completeness ∙ p, k.answered)
  onward_lem dna n' s p e f =
      let k = build_transaction_dna-Fingerprinted w s in
      edge (λ n. Expected n (build_transaction_dna w s).state) f
        (record {
          documents = ap has_complete_set k.completeness ∙ p.0;
          rules = λ h. ap is_some k.compliance_result ∙ p.1 (k.review h);
          fingerprint = k.answered;
        })
  onward_lem matching n' s p e f =
      edge (λ n. Expected n (cross_ibu_check w s).state) f
        (Carries-Informed (cross_ibu_check-Carries w s) p)
  onward_lem triage n' s p e f =
      edge (λ n. Expected n (fraud_triage w s).state) f
        (Carries-Informed (fraud_triage-Carries w s) p)
  onward_lem tools n' s p e f =
      edge (λ n. Expected n (conditional_tool_calls w s).state) f
        (Carries-Informed (conditional_tool_calls-Carries w s) p)
  onward_lem aggregation n' s p e f =
      edge (λ n. Expected n (aggregate_evidence w s).state) f
        (Carries-Informed (aggregate_evidence-Carries w s) p)
  onward_lem assessment n' s p e f =
      edge (λ n. Expected n (risk_assessment w s).state) f (risk_assessment-gate w s p)
  onward_lem gate n' s p e f =
      edge (λ n. Expected n (pass_gate w s).state) f (pass_gate-Cleared w s (p e))
  onward_lem readiness n' s p e f = absurd (ground (arith, f))

  at_end_lem :
      (n : Node) (s : InvestigationState)
      → Expected n s
      → interrupts n s ≡ false
      → successor n (visit w n s).state ≡ none
      → Finish w (visit w n s).state
  unfolding visit successor interrupts
  at_end_lem loading s p e f = no_documents s p
  at_end_lem checking s p e f = absurd (ground (arith, f))
  at_end_lem ucp s p e f = absurd (ground (arith, f))
  at_end_lem dna s p e f = absurd (ground (arith, f))
  at_end_lem matching s p e f = absurd (ground (arith, f))
  at_end_lem triage s p e f = absurd (ground (arith, f))
  at_end_lem tools s p e f = absurd (ground (arith, f))
  at_end_lem aggregation s p e f = absurd (ground (arith, f))
  at_end_lem assessment s p e f = absurd (ground (arith, f))
  at_end_lem gate s p e f = absurd (ground (arith, f))
  at_end_lem readiness s p e f = ready s p

  interrupts-review :
      (n : Node) (s : InvestigationState) → interrupts n s ≡ true → s.requires_human_review ≡ true
  unfolding interrupts
  interrupts-review gate s e = e
  interrupts-review n s e = absurd (ground (arith, e))

  pub gate-Invariant : Invariant w Expected (Finish w) (λ s. s.requires_human_review ≡ true)
  gate-Invariant = record {
    onward = onward_lem;
    at_end = at_end_lem;
    at_interrupt = λ n s _ e. interrupts-review n s e;
  }
