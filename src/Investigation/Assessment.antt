-- ===== src/Investigation/Assessment.antt =====
-- investigation_orchestrator.py: `risk_assessment`, `human_review_gate` and `settlement_readiness`.
use trade_sentry.Prelude.{
  String, Bool, true, false, ◌||◌, not, Option, none, some, any, is_empty, or_else, if◌then◌else◌,
}
use trade_sentry.Compliance.Model.{ComplianceResult, is_material_finding}
use trade_sentry.Dna.{TransactionDna}
use trade_sentry.CrossIbu.Model.{exact, near, CrossIbuMatch}
use trade_sentry.Fraud.{
  PriceSignal, VesselStatus, SanctionsStatus, PriceBenchmarkResult, VesselVerificationResult,
  EntityScreenResult, SanctionsScreeningResult,
}
use trade_sentry.Investigation.Model.{
  InvestigationState, RiskBand, low, medium, high, hold_action, ready_action,
}
use trade_sentry.Investigation.Risk.{deterministic_risk_score, risk_score, band_of}
use trade_sentry.Investigation.World.{World}
use trade_sentry.Investigation.Calls.{Step, quiet, timeline}

abbrev pub has_material : Option ComplianceResult → Bool
has_material none = false
has_material (some r) = any is_material_finding r.findings

abbrev pub is_exact_match : CrossIbuMatch → Bool
is_exact_match m = elim m.match_level [ exact ↦ true | _ ↦ false ]

abbrev pub is_near_match : CrossIbuMatch → Bool
is_near_match m = elim m.match_level [ near ↦ true | _ ↦ false ]

abbrev pub dna_attention : Option TransactionDna → Bool
dna_attention none = false
dna_attention (some d) = not (is_empty d.confidence_flags) || not (is_empty d.conflicts)

abbrev pub price_alert : Option PriceBenchmarkResult → Bool
price_alert none = false
price_alert (some r) = elim r.signal [ PriceSignal.normal ↦ false | _ ↦ true ]

abbrev pub vessel_alert : Option VesselVerificationResult → Bool
vessel_alert none = false
vessel_alert (some r) = elim r.verification_result [ VesselStatus.anomaly ↦ true | _ ↦ false ]

abbrev pub is_hit : EntityScreenResult → Bool
is_hit e = elim e.match_status [ SanctionsStatus.no_match ↦ false | _ ↦ true ]

abbrev pub sanctions_alert : Option SanctionsScreeningResult → Bool
sanctions_alert none = false
sanctions_alert (some r) = any is_hit r.screened_entities

abbrev pub is_high : RiskBand → Bool
is_high high = true
is_high _ = false

-- what the assessment itself finds to review
unfoldable pub alerts : InvestigationState → Bool
alerts s =
    is_high (band_of (risk_score s))
    || (has_material s.compliance_result
        || (any is_exact_match s.cross_ibu_matches
            || (any is_near_match s.cross_ibu_matches
                || (dna_attention s.transaction_dna
                    || (price_alert s.price_benchmark
                        || (vessel_alert s.vessel_verification
                            || sanctions_alert s.sanctions_result))))))

-- `requires_review`
abbrev pub needs_review : InvestigationState → Bool
needs_review s = s.requires_human_review || alerts s

abbrev pub band_value : RiskBand → String
band_value low = "LOW"
band_value medium = "MEDIUM"
band_value high = "HIGH"

module _ (w : World) where
  unfoldable pub risk_assessment : InvestigationState → Step
  unfolding deterministic_risk_score
  risk_assessment s =
      let scored = deterministic_risk_score s in
      let requires_review = needs_review s in
      quiet (record s {
        risk_score = some scored.0;
        risk_band = some scored.1;
        requires_human_review = requires_review;
        recommended_action = if requires_review then some hold_action else s.recommended_action;
        stop_reason =
            if requires_review
            then or_else s.stop_reason (some "HUMAN_REVIEW_REQUIRED")
            else s.stop_reason;
        timeline =
            timeline w s "risk_assessment" (band_value scored.1)
              "Applied prototype demo weights — not calibrated for production";
      })

  -- what the gate does when no review is required; otherwise it interrupts the run
  unfoldable pub pass_gate : InvestigationState → Step
  pass_gate s = quiet (record s {
    timeline = timeline w s "human_review_gate" "PASSED" "No mandatory review trigger";
  })

  unfoldable pub settlement_readiness : InvestigationState → Step
  settlement_readiness s = quiet (record s {
    recommended_action = some ready_action;
    investigation_complete = true;
    stop_reason = some "INVESTIGATION_COMPLETE";
    timeline =
        timeline w s "settlement_readiness" "READY"
          "Readiness advisory only; no settlement action exists or was executed";
  })
