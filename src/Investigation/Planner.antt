-- ===== src/Investigation/Planner.antt =====
-- agents/planner.py: `DeterministicTriagePlanner.plan`.
use Prim.Native.String.{◌++◌ as ◌+◌}
use trade_sentry.Prelude.{
  String, Bool, false, ◌||◌, not, Option, none, some, List, [], ◌∷◌, ◌++◌, any, elem, string_eq,
  ◌==◌,
}
use trade_sentry.Prelude.Decimal.{Decimal, decimal, lt}
use trade_sentry.Compliance.Finding.{one_if}
use trade_sentry.Investigation.Model.{TriageContext, ToolSelectionPlan}

abbrev pub approved_agent_tools : List String
approved_agent_tools =
    "price_benchmark" ∷ "vessel_verification" ∷ "entity_verification" ∷ "sanctions_screening" ∷ []

-- `unit_value_threshold`
abbrev pub unit_value_threshold : Decimal
unit_value_threshold = decimal 700 0

-- `any(level != "NONE" for level in cross_ibu_levels)`
abbrev pub has_cross_ibu_signal : TriageContext → Bool
has_cross_ibu_signal c = any (λ level. not (level == "NONE")) c.cross_ibu_levels

abbrev pub is_high_value : Option Decimal → Bool
is_high_value none = false
is_high_value (some v) = lt unit_value_threshold v

-- `", ".join(selected) if selected else "none"`
abbrev join_comma : List String → String
join_comma [] = "none"
join_comma (s ∷ []) = s
join_comma (s ∷ t ∷ ts) = s + (", " + join_comma (t ∷ ts))

unfoldable pub deterministic_plan : TriageContext → ToolSelectionPlan
unfolding lt
deterministic_plan c =
    let signal = has_cross_ibu_signal c in
    let price = signal || is_high_value c.unit_value_usd_per_unit in
    let vessel = signal || elem "vessel_name" c.conflict_fields in
    let entity = signal || c.both_trade_entities_missing in
    let sanctions = not c.sanctions_already_run in
    let selected =
      one_if price "price benchmark"
      ++ (one_if vessel "vessel verification"
          ++ (one_if entity "entity verification" ++ one_if sanctions "sanctions screening")) in
    record {
      run_price_benchmark = price;
      run_vessel_verification = vessel;
      run_entity_verification = entity;
      run_sanctions = sanctions;
      reasoning =
          "Selected read-only investigation tools from structured signals: "
          + (join_comma selected + ". Findings remain subject to human review.");
    }
