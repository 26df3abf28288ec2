-- ===== src/Prototype/Risk.antt =====
-- rules/risk_scoring.py
use Prim.Native.String.{◌++◌ as ◌+◌}
use trade_sentry.Prelude.{
  ℕ, ◌*◌, String, Bool, List, [], ◌∷◌, ◌++◌, sum_by, leb, min, string_eq, ◌==◌, if◌then◌else◌,
}
use trade_sentry.Prototype.{material, review, potentially_waivable, Finding, PrototypeHost}

pub data RiskBand : Type 0 where
  low medium high : RiskBand

pub record RiskScoreResult : Type 0 where
  pub score : ℕ
  pub band : RiskBand
  pub breakdown : List (String × ℕ)

abbrev pub material_weight : Finding → ℕ
material_weight f = elim f.severity [ material ↦ 40 | _ ↦ 0 ]

abbrev pub review_weight : Finding → ℕ
review_weight f = elim f.severity [ review ↦ 15 | _ ↦ 0 ]

abbrev pub waivable_weight : Finding → ℕ
waivable_weight f = elim f.severity [ potentially_waivable ↦ 10 | _ ↦ 0 ]

-- an entry of the breakdown, if the test holds
abbrev pub points_if : Bool → String → ℕ → List (String × ℕ)
points_if b label points = if b then (label, points) ∷ [] else []

-- ... if the points are not zero
abbrev pub some_points : String → ℕ → List (String × ℕ)
some_points label points = if leb points 0 then [] else (label, points) ∷ []

abbrev pub material_points : List Finding → ℕ
material_points findings = min (sum_by material_weight findings) 60

abbrev pub review_points : List Finding → ℕ
review_points findings = min (sum_by review_weight findings) 30

abbrev pub waivable_points : List Finding → ℕ
waivable_points findings = min (sum_by waivable_weight findings) 10

abbrev pub band_of : ℕ → RiskBand
band_of score = if leb 70 score then high else if leb 30 score then medium else low

module _ (h : PrototypeHost) where
  open h use {percent, full}

  abbrev pub cross_ibu_points : (match_level : String) (similarity : ℕ) → List (String × ℕ)
  cross_ibu_points match_level similarity =
      if match_level == "EXACT"
      then ("Cross-IBU EXACT match", 80) ∷ []
      else points_if (match_level == "NEAR")
          ("Cross-IBU NEAR match (similarity " + (percent similarity + ")"))
          (if leb (95 * full) (similarity * 100) then 45 else 30)

  -- the entries of the breakdown, in the code's order
  unfoldable pub risk_points :
      (cross_ibu_match_level : String) (cross_ibu_similarity : ℕ)
      → List Finding
      → (price_signal vessel_signal sanctions_status completeness_status
          ebl_integrity_status : String)
      → List (String × ℕ)
  risk_points match_level similarity findings price vessel sanctions completeness ebl =
      cross_ibu_points match_level similarity
      ++ (some_points "UCP MATERIAL findings (capped at 60)" (material_points findings)
          ++ (some_points "UCP REVIEW findings" (review_points findings)
              ++ (some_points "UCP WAIVABLE findings" (waivable_points findings)
                  ++ ((if price == "SIGNIFICANT_ANOMALY"
                        then ("Price SIGNIFICANT_ANOMALY", 55) ∷ []
                        else points_if (price == "REVIEW") "Price REVIEW signal" 20)
                      ++ ((if vessel == "ANOMALY"
                            then ("Vessel position ANOMALY", 30) ∷ []
                            else points_if (vessel == "DATA_UNAVAILABLE") "Vessel data unavailable"
                                5)
                          ++ ((if sanctions == "CONFIRMED_SOURCE_MATCH"
                                then ("Sanctions CONFIRMED match", 90) ∷ []
                                else points_if (sanctions == "POSSIBLE_MATCH")
                                    "Sanctions POSSIBLE_MATCH" 35)
                              ++ (points_if (completeness == "INCOMPLETE")
                                    "Document completeness INCOMPLETE" 25
                                  ++ (if ebl == "TAMPERED"
                                      then ("eBL document TAMPERED (hash mismatch)", 70) ∷ []
                                      else points_if (ebl == "INVALID")
                                          "eBL invalid digital signature" 50))))))))

  unfoldable pub calculate_risk_score :
      (cross_ibu_match_level : String) (cross_ibu_similarity : ℕ)
      → List Finding
      → (price_signal vessel_signal sanctions_status completeness_status
          ebl_integrity_status : String)
      → RiskScoreResult
  calculate_risk_score match_level similarity findings price vessel sanctions completeness ebl =
      let entries =
        risk_points match_level similarity findings price vessel sanctions completeness ebl in
      let score = sum_by (λ e. e.1) entries in
      record { score = score; band = band_of score; breakdown = entries }
