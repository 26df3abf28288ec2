-- ===== src/Investigation/Calls/Guard.antt =====
-- The guardrail on rule identifiers, for what the engine returns.
use trade_sentry.Prelude.{
  ◌≡◌, refl, true, false, not, List, [], ◌∷◌, All, any, elem, map, string_eq,
}
use trade_sentry.Compliance.Model.{
  Rule, art14c, art14d, art18, art20, art28, art30a, art30b, art30c, art31, rule, rule_definitions,
  ComplianceFinding, ComplianceCaseFacts,
}
use trade_sentry.Compliance.Finding.{Host}
use trade_sentry.Compliance.Engine.{evaluate_compliance}
use trade_sentry.Compliance.Engine.Approved.{IsCited}
use trade_sentry.Compliance.Engine.Cited.{evaluate-AllCited}
use trade_sentry.Investigation.World.{returned}
use trade_sentry.Investigation.Calls.{validate_compliance_rule_ids}

rule-known : (r : Rule) → elem (rule r).rule_id (map (λ d. d.rule_id) rule_definitions) ≡ true
rule-known art14c = refl
rule-known art14d = refl
rule-known art18 = refl
rule-known art20 = refl
rule-known art28 = refl
rule-known art30a = refl
rule-known art30b = refl
rule-known art30c = refl
rule-known art31 = refl

unknown-none :
    (fs : List ComplianceFinding)
    → All IsCited fs
    → any (λ f. not (elem f.rule_id (map (λ d. d.rule_id) rule_definitions))) fs ≡ false
unknown-none [] a = refl
unknown-none (f ∷ fs) a = rw (a.0.same, rule-known a.0.key) (unknown-none fs a.1)

-- The guardrail never rejects what the engine returns: every finding cites a rule of the
-- configuration file.
pub validate-evaluate :
    (h : Host) (facts : ComplianceCaseFacts)
    → validate_compliance_rule_ids (evaluate_compliance h facts)
      ≡ returned (evaluate_compliance h facts)
unfolding validate_compliance_rule_ids
validate-evaluate h facts =
    rw (unknown-none (evaluate_compliance h facts).findings (evaluate-AllCited h facts)) refl
