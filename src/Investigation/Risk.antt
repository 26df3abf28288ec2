-- ===== src/Investigation/Risk.antt =====
-- agents/risk.py: `deterministic_risk_score`.
pub mod Bands
use trade_sentry.Prelude.{ℕ, ◌+◌, ◌*◌, Option, none, some, List, if◌then◌else◌, leb, min, sum_by}
use trade_sentry.Contracts.Documents.{DocumentCompleteness, incomplete}
use trade_sentry.Compliance.Model.{ComplianceFinding, ComplianceResult, is_material, is_waivable}
use trade_sentry.CrossIbu.Model.{exact, near, CrossIbuMatch}
use trade_sentry.Fraud.{
  PriceSignal, VesselStatus, SanctionsStatus, PriceBenchmarkResult, VesselVerificationResult,
  SanctionsScreeningResult, EntityScreenResult,
}
use trade_sentry.Investigation.Model.{InvestigationState, RiskBand, low, medium, high}

abbrev pub match_points : CrossIbuMatch → ℕ
match_points m = elim m.match_level [
  | exact ↦ 80
  | near ↦ (if leb 850_000 m.similarity_score then 45 else 0)
  | _ ↦ 0
]

abbrev pub material_count : List ComplianceFinding → ℕ
material_count = sum_by (λ f. if is_material f.severity then 1 else 0)

abbrev pub waivable_points : List ComplianceFinding → ℕ
waivable_points = sum_by (λ f. if is_waivable f.severity then 10 else 0)

abbrev pub compliance_points : Option ComplianceResult → ℕ
compliance_points none = 0
compliance_points (some r) = min (material_count r.findings * 40) 60 + waivable_points r.findings

abbrev pub price_points : Option PriceBenchmarkResult → ℕ
price_points none = 0
price_points (some r) = elim r.signal [
  | PriceSignal.significant_anomaly ↦ 55
  | PriceSignal.review ↦ 20
  | _ ↦ 0
]

abbrev pub vessel_points : Option VesselVerificationResult → ℕ
vessel_points none = 0
vessel_points (some r) = elim r.verification_result [ VesselStatus.anomaly ↦ 30 | _ ↦ 0 ]

abbrev pub entity_points : EntityScreenResult → ℕ
entity_points e = elim e.match_status [
  | SanctionsStatus.possible_match ↦ 35
  | SanctionsStatus.confirmed_source_match ↦ 90
  | _ ↦ 0
]

abbrev pub sanctions_points : Option SanctionsScreeningResult → ℕ
sanctions_points none = 0
sanctions_points (some r) = sum_by entity_points r.screened_entities

abbrev pub completeness_points : Option DocumentCompleteness → ℕ
completeness_points none = 0
completeness_points (some c) = elim c.status [ incomplete ↦ 25 | _ ↦ 0 ]

unfoldable pub risk_score : InvestigationState → ℕ
risk_score s =
    sum_by match_points s.cross_ibu_matches
    + compliance_points s.compliance_result
    + price_points s.price_benchmark
    + vessel_points s.vessel_verification
    + sanctions_points s.sanctions_result
    + completeness_points s.completeness

unfoldable pub band_of : ℕ → RiskBand
band_of score = if leb score 29 then low else if leb score 69 then medium else high

unfoldable pub deterministic_risk_score : InvestigationState → ℕ × RiskBand
unfolding risk_score band_of
deterministic_risk_score s = (risk_score s, band_of (risk_score s))
