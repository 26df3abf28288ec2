-- ===== src/Investigation/Graph/Gate.antt =====
-- What lets a run of the graph through the gate of human review.
use mathlib.Core.Path.{subst}
use trade_sentry.Prelude.{ℕ, String, ◌≡◌, refl, true, Option, none, some, is_some, arith, string_eq}
use trade_sentry.Investigation.Model.{completed, interrupted, hold_action}
use trade_sentry.Investigation.World.{World}
use trade_sentry.Investigation.Graph.{
  loading, Ending, finished, stopped, unfinished, graph_fuel, conclude, Run, run,
}
use trade_sentry.Investigation.Graph.Reach.{EndsIn, IsOver, traverse-EndsIn, traverse-IsOver}
use trade_sentry.Investigation.Graph.Clearance.{Finish}
use trade_sentry.Investigation.Graph.Held.{IsHeld, IsHeld-Invariant}

Answer : World → Option Run → Type 0
Answer w none = Unit
Answer w (some r) = r.response.workflow_status ≡ completed → Finish w r.response.state

HeldAnswer : Option Run → Type 0
HeldAnswer none = Unit
HeldAnswer (some r) =
    r.response.workflow_status ≡ interrupted
    → (r.response.state.requires_human_review ≡ true)
      × (r.response.state.recommended_action ≡ some hold_action)

module _ (w : World) (case_id ibu_id : String) (tool_budget : Option ℕ) where
  conclude-HeldAnswer : (e : Ending) → EndsIn (λ _. Unit) IsHeld e → HeldAnswer (conclude w e)
  unfolding HeldAnswer
  conclude-HeldAnswer (finished s es) h = λ e. absurd (ground (arith, e))
  conclude-HeldAnswer (stopped s es) h = λ _. (h.review, h.action)
  conclude-HeldAnswer unfinished h = tt

  conclude-is_some : (e : Ending) → IsOver e → is_some (conclude w e) ≡ true
  conclude-is_some (finished s es) h = refl
  conclude-is_some (stopped s es) h = refl
  conclude-is_some unfinished h = absurd h

  run-HeldAnswer : HeldAnswer (run w case_id ibu_id tool_budget)
  unfolding run
  run-HeldAnswer =
      conclude-HeldAnswer _ (traverse-EndsIn w (IsHeld-Invariant w) graph_fuel loading _ tt)

  -- An investigation always comes to a response: it runs to the end of its graph or to the interrupt
  -- at the gate of human review, whichever of the recorded service calls and the planner fail.
  pub run_total : is_some (run w case_id ibu_id tool_budget) ≡ true
  unfolding run
  run_total = conclude-is_some _ (traverse-IsOver w graph_fuel loading _ (omega arith))

  -- An investigation that is interrupted at the gate leaves a state that requires human review and
  -- recommends to hold the case.
  pub run_interrupted :
      (r : Run)
      → run w case_id ibu_id tool_budget ≡ some r
      → r.response.workflow_status ≡ interrupted
      → (r.response.state.requires_human_review ≡ true)
        × (r.response.state.recommended_action ≡ some hold_action)
  unfolding HeldAnswer
  run_interrupted r e i = (subst HeldAnswer e run-HeldAnswer) i
