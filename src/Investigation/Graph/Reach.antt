-- ===== src/Investigation/Graph/Reach.antt =====
-- The ways through the graph of `_build_graph`, and how a run of it can end.
use mathlib.Core.Path.{subst}
use trade_sentry.Prelude.{
  ℕ, zero, suc, ◌≤◌, ◌≡◌, refl, true, false, none, some, List, sym, [], arith, Bool-cases,
  Option-cases, inl, inr,
}
use trade_sentry.Investigation.Model.{InvestigationState, AuditEvent}
use trade_sentry.Investigation.World.{World}
use trade_sentry.Investigation.Graph.{
  Node, loading, checking, ucp, dna, matching, triage, tools, aggregation, assessment, gate,
  readiness, successor, visit, interrupts, traverse, Ending, finished, stopped, unfinished, prepend,
}

-- The predicates that every node hands on to the next, and what they give where a run ends.
pub record Invariant (w : World) (P : Node → InvestigationState → Type 0)
    (Done Held : InvestigationState → Type 0) : Type 0 where
  pub onward :
      (n n' : Node) (s : InvestigationState)
      → P n s
      → interrupts n s ≡ false
      → successor n (visit w n s).state ≡ some n'
      → P n' (visit w n s).state
  pub at_end :
      (n : Node) (s : InvestigationState)
      → P n s
      → interrupts n s ≡ false
      → successor n (visit w n s).state ≡ none
      → Done (visit w n s).state
  pub at_interrupt : (n : Node) (s : InvestigationState) → P n s → interrupts n s ≡ true → Held s

abbrev pub EndsIn : (Done Held : InvestigationState → Type 0) → Ending → Type 0
EndsIn Done Held (finished s es) = Done s
EndsIn Done Held (stopped s es) = Held s
EndsIn Done Held unfinished = Unit

abbrev pub rank : Node → ℕ
rank loading = 11
rank checking = 10
rank ucp = 9
rank dna = 8
rank matching = 7
rank triage = 6
rank tools = 5
rank aggregation = 4
rank assessment = 3
rank gate = 2
rank readiness = 1

abbrev pub IsOver : Ending → Type 0
IsOver unfinished = ⊥
IsOver _ = Unit

prepend-EndsIn :
    (Done Held : InvestigationState → Type 0) (es : List AuditEvent) (e : Ending)
    → EndsIn Done Held e
    → EndsIn Done Held (prepend es e)
prepend-EndsIn Done Held es (finished s fs) h = h
prepend-EndsIn Done Held es (stopped s fs) h = h
prepend-EndsIn Done Held es unfinished h = h

prepend-IsOver : (es : List AuditEvent) (e : Ending) → IsOver e → IsOver (prepend es e)
prepend-IsOver es (finished s fs) h = h
prepend-IsOver es (stopped s fs) h = h
prepend-IsOver es unfinished h = h

successor-rank :
    (n n' : Node) (s : InvestigationState) → successor n s ≡ some n' → suc (rank n') ≤ rank n
unfolding successor
successor-rank n n' s e = ground arith

module _ (w : World) where
  module _ (fuel : ℕ) (n : Node) (s : InvestigationState) where
    traverse-interrupt : interrupts n s ≡ true → traverse w (suc fuel) n s ≡ stopped s []
    unfolding traverse
    traverse-interrupt e = rw e refl

    traverse-end :
        interrupts n s ≡ false
        → successor n (visit w n s).state ≡ none
        → traverse w (suc fuel) n s ≡ finished (visit w n s).state (visit w n s).events
    unfolding traverse
    traverse-end e f = rw (e, f) refl

    traverse-onward :
        (n' : Node)
        → interrupts n s ≡ false
        → successor n (visit w n s).state ≡ some n'
        → traverse w (suc fuel) n s
          ≡ prepend (visit w n s).events (traverse w fuel n' (visit w n s).state)
    unfolding traverse
    traverse-onward n' e f = rw (e, f) refl

  pub traverse-EndsIn :
      {P : Node → InvestigationState → Type 0} {Done Held : InvestigationState → Type 0}
      → Invariant w P Done Held
      → (fuel : ℕ) (n : Node) (s : InvestigationState) → P n s
      → EndsIn Done Held (traverse w fuel n s)
  unfolding traverse
  traverse-EndsIn i zero n s p = tt
  traverse-EndsIn {Done = Done} {Held = Held} i (suc fuel) n s p =
      elim (Bool-cases (interrupts n s)) [
        | inl e ↦
            subst (EndsIn Done Held) (sym (traverse-interrupt fuel n s e)) (i.at_interrupt n s p e)
        | inr e ↦ elim (Option-cases (successor n (visit w n s).state)) [
          | inl f ↦ subst (EndsIn Done Held) (sym (traverse-end fuel n s e f)) (i.at_end n s p e f)
          | inr (n', f) ↦ subst (EndsIn Done Held) (sym (traverse-onward fuel n s n' e f)) (
              prepend-EndsIn Done Held (visit w n s).events _
                (traverse-EndsIn i fuel n' (visit w n s).state (i.onward n n' s p e f)))
        ]
      ]

  pub traverse-IsOver :
      (fuel : ℕ) (n : Node) (s : InvestigationState) → rank n ≤ fuel → IsOver (traverse w fuel n s)
  traverse-IsOver zero n s h = ground arith
  traverse-IsOver (suc fuel) n s h = elim (Bool-cases (interrupts n s)) [
    | inl e ↦ subst IsOver (sym (traverse-interrupt fuel n s e)) tt
    | inr e ↦ elim (Option-cases (successor n (visit w n s).state)) [
      | inl f ↦ subst IsOver (sym (traverse-end fuel n s e f)) tt
      | inr (n', f) ↦
          let lower = successor-rank n n' (visit w n s).state f in
          subst IsOver (sym (traverse-onward fuel n s n' e f)) (
            prepend-IsOver (visit w n s).events _
              (traverse-IsOver fuel n' (visit w n s).state (omega arith)))
    ]
  ]
