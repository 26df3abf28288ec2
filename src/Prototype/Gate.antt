-- ===== src/Prototype/Gate.antt =====
-- rules/human_review_gate.py
use Prim.Native.String.{◌++◌ as ◌+◌}
use trade_sentry.Prelude.{
  String, Bool, true, false, not, List, [], ◌∷◌, ◌++◌, map, keep, is_empty, length, string_eq, ◌==◌,
  if◌then◌else◌,
}
use trade_sentry.Prelude.Text.{show_nat}
use trade_sentry.Prototype.{material, Finding}
use trade_sentry.Prototype.Risk.{RiskBand, high}

abbrev pub is_material : Finding → Bool
is_material f = elim f.severity [ material ↦ true | _ ↦ false ]

abbrev pub is_high : RiskBand → Bool
is_high high = true
is_high _ = false

-- `", ".join(texts)`
abbrev pub listed : List String → String
listed [] = ""
listed (s ∷ []) = s
listed (s ∷ t ∷ ss) = s + (", " + listed (t ∷ ss))

abbrev pub reason_if : Bool → String → List String
reason_if b s = if b then s ∷ [] else []

-- `reasons`
unfoldable pub review_reasons :
    RiskBand → List Finding → (cross_ibu_match_level ebl_integrity_status : String) → List String
review_reasons band findings match_level integrity =
    let material_findings = keep is_material findings in
    reason_if (is_high band) "Risk score in HIGH band (≥70)"
    ++ (reason_if (not (is_empty material_findings)) (
          show_nat (length material_findings)
          + (" MATERIAL compliance finding(s): " + listed (map (λ f. f.rule_id) material_findings)))
        ++ (reason_if (match_level == "EXACT") "Cross-IBU EXACT duplicate financing match"
            ++ reason_if (integrity == "TAMPERED")
                "eBL document tampered — hash mismatch detected"))

unfoldable pub should_require_human_review :
    RiskBand
    → List Finding
    → (cross_ibu_match_level ebl_integrity_status : String) → Bool × List String
should_require_human_review band findings match_level integrity =
    let reasons = review_reasons band findings match_level integrity in
    (not (is_empty reasons), reasons)
