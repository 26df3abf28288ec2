-- ===== src/Investigation/Graph/Held.antt =====
-- What the gate of human review holds a case with.
use mathlib.Core.Path.{subst}
use trade_sentry.Prelude.{
  option_beq, string_eq, ◌≡◌, refl, ◌⊎◌, inl, inr, Bool, true, false, Option, none, some, arith,
  Bool-cases, if◌then◌else◌,
}
use trade_sentry.Contracts.Documents.{is_complete}
use trade_sentry.Investigation.Model.{InvestigationState, hold_action}
use trade_sentry.Investigation.World.{World}
use trade_sentry.Investigation.Completeness.{completeness_of}
use trade_sentry.Investigation.Nodes.{load_case, check_completeness}
use trade_sentry.Investigation.Assessment.{needs_review, risk_assessment}
use trade_sentry.Investigation.Graph.{
  Node, loading, checking, ucp, dna, matching, triage, tools, aggregation, assessment, gate,
  readiness, successor, visit, interrupts,
}
use trade_sentry.Investigation.Graph.Reach.{Invariant}

-- A review is required and the action that the state recommends is to hold the case.
pub record IsHeld (s : InvestigationState) : Type 0 where
  pub review : s.requires_human_review ≡ true
  pub action : s.recommended_action ≡ some hold_action

-- What holds where a node is entered: at the gate, a review that is required comes with the hold.
abbrev pub Decided : Node → InvestigationState → Type 0
Decided gate s = (s.requires_human_review ≡ false) ⊎ (s.recommended_action ≡ some hold_action)
Decided _ s = Unit

abbrev Always : InvestigationState → Type 0
Always s = Unit

abbrev AtSome : (Node → Type 0) → Option Node → Type 0
AtSome P none = Unit
AtSome P (some n) = P n

edge : (P : Node → Type 0) {n n' : Node} → some n ≡ some n' → P n → P n'
edge P e p = subst (AtSome P) e p

module _ (w : World) where
  assessed : (s : InvestigationState) → Decided gate (risk_assessment w s).state
  unfolding risk_assessment
  assessed s = elim (Bool-cases (needs_review s)) [ inl e ↦ rw e (inr refl) | inr e ↦ inl e ]

  judged_complete : InvestigationState → Bool
  judged_complete s = is_complete (completeness_of s.documents s.extraction_results).status

  checked :
      (s : InvestigationState)
      → Decided (if judged_complete s then ucp else gate) (check_completeness w s).state
  unfolding check_completeness judged_complete
  checked s = elim (Bool-cases (judged_complete s)) [ inl e ↦ rw e tt | inr e ↦ rw e (inr refl) ]

  onward_lem :
      (n n' : Node) (s : InvestigationState)
      → Decided n s
      → interrupts n s ≡ false
      → successor n (visit w n s).state ≡ some n'
      → Decided n' (visit w n s).state
  unfolding visit successor interrupts check_completeness judged_complete
  onward_lem checking n' s p e f =
      edge (λ n. Decided n (check_completeness w s).state) f (checked s)
  onward_lem assessment n' s p e f =
      edge (λ n. Decided n (risk_assessment w s).state) f (assessed s)
  onward_lem loading n' s p e f =
      elim (Bool-cases (option_beq (load_case w s).state.stop_reason (some "NO_DOCUMENTS"))) [
        | inl h ↦ absurd (ground (arith, rw h at f))
        | inr h ↦ edge (λ n. Decided n (load_case w s).state) (rw h at f) tt
      ]
  onward_lem ucp n' s p e f = edge (λ n. Decided n (visit w ucp s).state) f tt
  onward_lem dna n' s p e f = edge (λ n. Decided n (visit w dna s).state) f tt
  onward_lem matching n' s p e f = edge (λ n. Decided n (visit w matching s).state) f tt
  onward_lem triage n' s p e f = edge (λ n. Decided n (visit w triage s).state) f tt
  onward_lem tools n' s p e f = edge (λ n. Decided n (visit w tools s).state) f tt
  onward_lem aggregation n' s p e f = edge (λ n. Decided n (visit w aggregation s).state) f tt
  onward_lem gate n' s p e f = edge (λ n. Decided n (visit w gate s).state) f tt
  onward_lem readiness n' s p e f = absurd (ground (arith, f))

  at_interrupt_lem :
      (n : Node) (s : InvestigationState) → Decided n s → interrupts n s ≡ true → IsHeld s
  unfolding interrupts
  at_interrupt_lem gate s (inl f) e = absurd (ground (arith, e, f))
  at_interrupt_lem gate s (inr h) e = record { review = e; action = h }
  at_interrupt_lem n s p e = absurd (ground (arith, e))

  pub IsHeld-Invariant : Invariant w Decided Always IsHeld
  IsHeld-Invariant = record {
    onward = onward_lem;
    at_end = λ n s p e f. tt;
    at_interrupt = at_interrupt_lem;
  }
