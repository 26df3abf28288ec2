-- ===== src/Investigation/Risk/Bands.antt =====
-- The risk bands that single signals force.
use trade_sentry.Prelude.{
  ℕ, ◌≤◌, ◌≡◌, true, List, [], ◌∷◌, any, sum_by, arith, leb→le, Bool-cases, inl, inr,
}
use trade_sentry.CrossIbu.Model.{CrossIbuMatch}
use trade_sentry.CrossIbu.Match.Best.{is_exact_level}
use trade_sentry.Investigation.Model.{InvestigationState, high}
use trade_sentry.Investigation.Risk.{match_points, risk_score, band_of, deterministic_risk_score}

match_points-exact :
    (ms : List CrossIbuMatch) → any is_exact_level ms ≡ true → 80 ≤ sum_by match_points ms
match_points-exact [] e = absurd (ground (arith, e))
match_points-exact (m ∷ ms) e = elim (Bool-cases (is_exact_level m)) [
  | inl f ↦ ground (arith, f)
  | inr f ↦ ground (arith, f, e, match_points-exact ms)
]

band_of-high : (n : ℕ) → 70 ≤ n → band_of n ≡ high
unfolding band_of
band_of-high n h = ground (arith, h, leb→le n 29, leb→le n 69)

-- A case with an EXACT match in another branch is in the band HIGH, whatever else is known of it.
pub exact_match-high :
    (s : InvestigationState)
    → any is_exact_level s.cross_ibu_matches ≡ true
    → (deterministic_risk_score s).1 ≡ high
unfolding deterministic_risk_score risk_score
exact_match-high s e =
    let points = match_points-exact s.cross_ibu_matches e in
    band_of-high (risk_score s) (ground (arith, points))
