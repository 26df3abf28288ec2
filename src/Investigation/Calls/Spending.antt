-- ===== src/Investigation/Calls/Spending.antt =====
-- How a recorded call uses the tool budget.
use trade_sentry.Prelude.{
  ℕ, ◌+◌, ◌≡◌, String, false, Option, List, [], ◌∷◌, ◌++◌, sum_by, sum_by-append, if◌then◌else◌,
  leb, leb→le, ◌==◌, string_eq, arith, Bool-cases, inl, inr,
}
use trade_sentry.Investigation.Model.{InvestigationState, ToolCallRecord}
use trade_sentry.Investigation.World.{World, Outcome, returned, raised}
use trade_sentry.Investigation.Calls.{attempt, record_tool_call}

-- the calls whose operation ran
abbrev pub executed : List ToolCallRecord → ℕ
executed = sum_by (λ r. if r.status == "BUDGET_EXHAUSTED" then 0 else 1)

pub executed-append :
    (xs ys : List ToolCallRecord) → executed (xs ++ ys) ≡ executed xs + executed ys
executed-append xs ys = sum_by-append _ xs ys

-- the budget that the state accounts for: used and left
abbrev pub allotted : InvestigationState → ℕ
allotted s = executed s.tool_calls_made + s.tool_budget_remaining

module _ {ℓ} {A : Type ℓ} (w : World) (s : InvestigationState) (name : String)
    (f : Option String) where
  attempt-spends :
      (hash : String) (o : Outcome A)
      → leb s.tool_budget_remaining 0 ≡ false
      → executed ((attempt w s name hash o).call ∷ []) + (attempt w s name hash o).remaining
        ≡ s.tool_budget_remaining
  attempt-spends hash (returned a) e = ground (arith, e)
  attempt-spends hash (raised x) e = ground (arith, e)

  pub record_tool_call-spends :
      (o : Outcome A)
      → executed ((record_tool_call w s name f o).call ∷ [])
          + (record_tool_call w s name f o).remaining
        ≡ s.tool_budget_remaining
  unfolding record_tool_call
  record_tool_call-spends o = elim (Bool-cases (leb s.tool_budget_remaining 0)) [
    | inl e ↦ rw e (ground (arith, leb→le s.tool_budget_remaining 0 e))
    | inr e ↦ rw e (attempt-spends (w.inputs_hash s.case_id f) o e)
  ]

-- a call with its record appended
pub allotted-call :
    (calls : List ToolCallRecord) (c : ToolCallRecord) (remaining before : ℕ)
    → executed (c ∷ []) + remaining ≡ before
    → executed (calls ++ c ∷ []) + remaining ≡ executed calls + before
allotted-call calls c remaining before e = ground (arith, e, executed-append calls (c ∷ []))
