-- ===== src/Prototype/Ui/Ready.antt =====
-- rules/ui_state.py: when a case is shown as ready.
use mathlib.Core.Bool.{false≢true}
use trade_sentry.Prelude.{
  String, ◌≡◌, ◌≢◌, ◌↔◌, ◌⊎◌, refl, Bool, true, false, ◌&&◌, ◌||◌, not, Option, none, some, List,
  string_eq, arith, if◌then◌else◌,
}
use trade_sentry.Prototype.{Finding}
use trade_sentry.Prototype.Completeness.{
  CompletenessResult, CompletenessStatus, complete, incomplete, pending_lc,
}
use trade_sentry.Prototype.Risk.{RiskScoreResult}
use trade_sentry.Prototype.Ui.{
  compute_ui_state, settlement_of, is_approve, is_incomplete, ready, review_required,
  documents_incomplete,
}

abbrev held : String
held = "HOLD"

abbrev shown_ready : String
shown_ready = "READY"

hold≢ready : held ≢ shown_ready
hold≢ready e = false≢true ((string_eq.beq_iff held shown_ready).1 e)

settlement-ready_iff :
    (approved review lacking : Bool)
    → ((if approved
          then ready
          else if review
          then review_required
          else if lacking
          then documents_incomplete
          else ready).status
        ≡ "READY")
      ↔ ((approved || (not review && not lacking)) ≡ true)
settlement-ready_iff true review lacking = ((λ e. refl), (λ e. refl))
settlement-ready_iff false true lacking =
    ((λ e. absurd (hold≢ready e)), (λ e. absurd (false≢true e)))
settlement-ready_iff false false true = ((λ e. absurd (hold≢ready e)), (λ e. absurd (false≢true e)))
settlement-ready_iff false false false = ((λ e. refl), (λ e. refl))

is_approve_iff :
    (decision : Option String) → (is_approve decision ≡ true) ↔ (decision ≡ some "APPROVE")
is_approve_iff none = ground arith
is_approve_iff (some d) = ground (arith, string_eq.beq_iff d "APPROVE")

-- The officer approved, or no review is required and the documents are complete or wait for a credit.
abbrev MayShowReady : Option String → Bool → CompletenessStatus → Type 0
MayShowReady decision review status =
    (decision ≡ some "APPROVE") ⊎ ((review ≡ false) × ((status ≡ complete) ⊎ (status ≡ pending_lc)))

may_show_iff :
    (decision : Option String) (review : Bool) (status : CompletenessStatus)
    → ((is_approve decision || (not review && not (is_incomplete status))) ≡ true)
      ↔ MayShowReady decision review status
may_show_iff decision true status = ground (arith, is_approve_iff decision)
may_show_iff decision false complete = ground (arith, is_approve_iff decision)
may_show_iff decision false pending_lc = ground (arith, is_approve_iff decision)
may_show_iff decision false incomplete = ground (arith, is_approve_iff decision)

-- A case is shown as READY exactly if the officer's decision is APPROVE, or if no review is required
-- and the status of the documents is COMPLETE or PENDING_LC: a case whose credit is not read yet
-- counts among these.
pub compute_ui_state-ready_iff :
    (risk : RiskScoreResult) (completeness : CompletenessResult) (findings : List Finding)
    (match_level price_signal : String) (review : Bool) (decision : Option String)
    → ((compute_ui_state risk completeness findings match_level price_signal review
          decision).settlement_status
        ≡ "READY")
      ↔ ((decision ≡ some "APPROVE")
          ⊎ ((review ≡ false)
              × ((completeness.status ≡ complete) ⊎ (completeness.status ≡ pending_lc))))
unfolding compute_ui_state settlement_of
compute_ui_state-ready_iff risk c findings match_level price_signal review decision =
    let shown = settlement-ready_iff (is_approve decision) review (is_incomplete c.status) in
    let allowed = may_show_iff decision review c.status in
    (λ e. allowed.0 (shown.0 e), λ m. shown.1 (allowed.1 m))
