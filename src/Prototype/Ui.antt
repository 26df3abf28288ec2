-- ===== src/Prototype/Ui.antt =====
-- rules/ui_state.py
pub mod Ready
use Prim.Native.String.{◌++◌ as ◌+◌}
use trade_sentry.Prelude.{
  String, Bool, true, false, not, Option, none, some, List, [], ◌∷◌, is_empty, string_eq, ◌==◌,
  if◌then◌else◌,
}
use trade_sentry.Dna.Normalization.{get}
use trade_sentry.Fraud.Runner.{value_or}
use trade_sentry.Prototype.{Finding}
use trade_sentry.Prototype.Completeness.{
  CompletenessStatus, complete, incomplete, pending_lc, CompletenessResult,
}
use trade_sentry.Prototype.Risk.{RiskBand, low, medium, high, RiskScoreResult}
use trade_sentry.Prototype.Gate.{listed}

pub record UiState : Type 0 where
  pub risk_badge_color : String
  pub risk_badge_label : String
  pub risk_badge_icon : String
  pub settlement_status : String
  pub settlement_color : String
  pub settlement_message : String
  pub settlement_sub_note : String
  pub run_button_enabled : Bool
  pub run_button_reason : String
  pub decision_panel_active : Bool
  pub ucp_section_badge : String
  pub cross_ibu_badge : String
  pub tbml_badge : String

abbrev pub band_color : RiskBand → String
band_color low = "green"
band_color medium = "amber"
band_color high = "red"

abbrev pub band_label : RiskBand → String
band_label low = "LOW"
band_label medium = "MEDIUM"
band_label high = "HIGH"

abbrev pub band_icon : RiskBand → String
band_icon low = "🟢"
band_icon medium = "🟡"
band_icon high = "🔴"

-- the four settlement values: status, colour, message and note
pub record Settlement : Type 0 where
  pub status : String
  pub color : String
  pub message : String
  pub sub_note : String

abbrev pub ready : Settlement
ready = record {
  status = "READY";
  color = "green";
  message = "READY FOR BANK SETTLEMENT WORKFLOW";
  sub_note = "Bank will proceed with applicable settlement process including FCSS where relevant.";
}

abbrev pub review_required : Settlement
review_required = record {
  status = "HOLD";
  color = "red";
  message = "HOLD — REVIEW REQUIRED";
  sub_note =
      "Bank settlement workflow cannot proceed until authorized officer decision is recorded.";
}

abbrev pub documents_incomplete : Settlement
documents_incomplete = record {
  status = "HOLD";
  color = "red";
  message = "HOLD — DOCUMENTS INCOMPLETE";
  sub_note = "Upload all required documents before proceeding.";
}

abbrev pub is_incomplete : CompletenessStatus → Bool
is_incomplete incomplete = true
is_incomplete _ = false

abbrev pub is_approve : Option String → Bool
is_approve none = false
is_approve (some d) = d == "APPROVE"

-- the chain of tests on the decision, the review and the completeness
unfoldable pub settlement_of :
    (officer_decision : Option String) (requires_human_review : Bool)
    → CompletenessStatus
    → Settlement
settlement_of decision review status =
    if is_approve decision
    then ready
    else if review
    then review_required
    else if is_incomplete status
    then documents_incomplete
    else ready

abbrev pub run_enabled : CompletenessStatus → Bool
run_enabled complete = true
run_enabled _ = false

abbrev pub run_reason : CompletenessResult → String
run_reason c = elim c.status [
  | pending_lc ↦ "Extract Letter of Credit first"
  | incomplete ↦ "Missing: " + listed c.missing
  | complete ↦ ""
]

abbrev pub ucp_badge : CompletenessStatus → List Finding → String
ucp_badge complete findings = if is_empty findings then "COMPLIANT" else "DISCREPANCY"
ucp_badge _ findings = "INCOMPLETE"

abbrev pub match_badges : List (String × String)
match_badges =
    ("EXACT", "🔴 EXACT MATCH")
    ∷ ("NEAR", "🟡 POSSIBLE MATCH")
    ∷ ("CONTEXTUAL", "🟡 CONTEXTUAL")
    ∷ ("NONE", "🟢 NO MATCH")
    ∷ []

abbrev pub price_badges : List (String × String)
price_badges =
    ("SIGNIFICANT_ANOMALY", "🔴 SIGNIFICANT ANOMALY")
    ∷ ("REVIEW", "🟡 REVIEW SIGNAL")
    ∷ ("NORMAL", "🟢 NORMAL")
    ∷ ("DATA_UNAVAILABLE", "⚪ DATA UNAVAILABLE")
    ∷ []

unfoldable pub compute_ui_state :
    RiskScoreResult
    → CompletenessResult
    → List Finding
    → (cross_ibu_match_level price_signal : String) → (requires_human_review : Bool)
    → (officer_decision : Option String) → UiState
compute_ui_state risk completeness findings match_level price_signal review decision =
    let s = settlement_of decision review completeness.status in
    record {
      risk_badge_color = band_color risk.band;
      risk_badge_label = band_label risk.band;
      risk_badge_icon = band_icon risk.band;
      settlement_status = s.status;
      settlement_color = s.color;
      settlement_message = s.message;
      settlement_sub_note = s.sub_note;
      run_button_enabled = run_enabled completeness.status;
      run_button_reason = run_reason completeness;
      decision_panel_active = review;
      ucp_section_badge = ucp_badge completeness.status findings;
      cross_ibu_badge = value_or (get match_level match_badges) "⏳ NOT CHECKED";
      tbml_badge = value_or (get price_signal price_badges) "⏳ NOT CHECKED";
    }
