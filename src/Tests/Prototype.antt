-- ===== src/Tests/Prototype.antt =====
-- The prototype rules at concrete amounts.
use trade_sentry.Prelude.{
  String, arith, ◌∷◌, if◌then◌else◌, ◌≡◌, ◌↔◌, ◌⊎◌, some, Option, true, false, none, [],
}
use trade_sentry.Prelude.Decimal.{decimal}
use trade_sentry.Compliance.Amounts.{
  check_credit_amount_tolerance as engine_amount_check,
  check_quantity_tolerance as engine_quantity_check,
}
use trade_sentry.Prototype.{PrototypeHost}
use trade_sentry.Prototype.Tolerances.{check_credit_amount_tolerance, check_quantity_tolerance}
use trade_sentry.Prototype.Tolerances.Agreement.{tolerance_rules_agree}
use trade_sentry.Prototype.Completeness.{check_completeness, complete, pending_lc}
use trade_sentry.Prototype.Risk.{RiskScoreResult, low}
use trade_sentry.Prototype.Ui.{compute_ui_state}
use trade_sentry.Prototype.Ui.Ready.{compute_ui_state-ready_iff}
use trade_sentry.Prototype.Matching.{
  MatchingHost, Transaction, classify_match, weighted_similarity, same_bill, exact, nothing,
  likely_duplicate, no_signal,
}
use trade_sentry.Prototype.Matching.Reach.{classify_match-weighted_similarity}
use trade_sentry.Tests.Data.{plain_host}

abbrev prototype_host : PrototypeHost
prototype_host = record {
  lower = λ s. s;
  upper = λ s. s;
  str = λ d. "1";
  show_date = λ d. "1";
  show_int = λ n. "1";
  percent = λ s. "1%";
  factor_percent = λ d. "1%";
  full = 100;
  token_sort_ratio = λ a b. 50;
}

tolerance_rules_agree_example :
    ((check_credit_amount_tolerance prototype_host
          (decimal 1000 2)
          (decimal 1050 2)
          (decimal 1050 2)
          true
        ≡ [])
      ↔ (engine_amount_check plain_host
            (decimal 1000 2)
            (decimal 1050 2)
            (decimal 1050 2)
            true
            "D1"
            none
          ≡ []))
    × (check_quantity_tolerance prototype_host (decimal 500 2) (decimal 510 2) true true ≡ []
        → engine_quantity_check plain_host (decimal 500 2) (decimal 510 2) true true "D1" none ≡ [])
tolerance_rules_agree_example =
    tolerance_rules_agree prototype_host plain_host "D1" none 1000 1050 1050 500 510 2 true true
      true

abbrev no_risk : RiskScoreResult
no_risk = record { score = 0; band = low; breakdown = [] }

compute_ui_state-ready_iff_example :
    ((compute_ui_state no_risk
        (check_completeness [] [])
        []
        "NONE"
        "NORMAL"
        false
        none).settlement_status
      ≡ "READY")
    ↔ ((◌≡◌ {A = Option String} none (some "APPROVE"))
        ⊎ ((false ≡ false)
            × (((check_completeness [] []).status ≡ complete)
                ⊎ ((check_completeness [] []).status ≡ pending_lc))))
compute_ui_state-ready_iff_example =
    compute_ui_state-ready_iff no_risk (check_completeness [] []) [] "NONE" "NORMAL" false none

-- texts are half alike
abbrev matching_host : MatchingHost
matching_host = record {
  upper = λ s. s;
  lower = λ s. s;
  fromisoformat = λ s. none;
  half = 50;
  token_sort_ratio = λ a b. 50;
}

abbrev shipment_of : (bill : String) → Transaction
shipment_of bill = ("bl_number_normalized", bill) ∷ ("vessel_normalized", "ever_given") ∷ []

classify_match-weighted_similarity_example :
    classify_match (weighted_similarity matching_host (shipment_of "BL1") (shipment_of "BL2")).0 ≡ (
      if same_bill matching_host (shipment_of "BL1") (shipment_of "BL2")
      then (exact, likely_duplicate)
      else (nothing, no_signal))
classify_match-weighted_similarity_example =
    classify_match-weighted_similarity matching_host (λ a b. omega arith) (omega arith)
      (shipment_of "BL1") (shipment_of "BL2")
