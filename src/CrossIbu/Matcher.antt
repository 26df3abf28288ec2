-- ===== src/CrossIbu/Matcher.antt =====
-- cross_ibu/matcher.py with cross_ibu/config/matching.json.
pub mod Bounds
use trade_sentry.Prelude.{
  ℕ, ◌+◌, ◌-◌, ◌*◌, ◌/◌, ◌%◌, String, Bool, false, ◌&&◌, ◌||◌, not, Option, none, some, List, [],
  ◌∷◌, if◌then◌else◌, ltb, leb, nat_beq, ◌==◌, string_eq, option_eq, option_beq,
}
use trade_sentry.Prelude.Text.{is_text}
use trade_sentry.Contracts.Fields.{Date}
use trade_sentry.CrossIbu.Model.{RegistrySignal, MatchHost}

-- `date_near_days`, and the thresholds in hundredths
abbrev pub date_near_days : ℕ
date_near_days = 7

abbrev pub likely_duplicate_threshold : ℕ
likely_duplicate_threshold = 95

abbrev pub possible_match_threshold : ℕ
possible_match_threshold = 85

-- A score `num / den`.
pub record Score : Type 0 where
  pub num : ℕ
  pub den : ℕ

-- `round(score, 6)` in millionths, a tie to the even neighbour
unfoldable pub round_six : Score → ℕ
round_six s =
    let q = s.num * 1_000_000 / s.den in
    let r = s.num * 1_000_000 % s.den in
    if ltb (2 * r) s.den then q else if ltb s.den (2 * r) then q + 1 else q + q % 2

-- `score >= threshold`, the threshold in hundredths
abbrev pub reaches : ℕ → Score → Bool
reaches threshold s = leb (threshold * s.den) (100 * s.num)

-- One pass of the loop: the field's name, its weight in hundredths, and the similarity if both sides
-- have the field.
pub record FieldComparison : Type 0 where
  pub name : String
  pub weight : ℕ
  pub similarity : Option ℕ

-- `bool(value and other == value)`
abbrev pub same_text : Option String → Option String → Bool
same_text none other = false
same_text (some t) other = is_text t && option_beq other (some t)

-- both given, and different
abbrev pub both_differ : Option String → Option String → Bool
both_differ (some a) (some b) = not (a == b)
both_differ _ _ = false

abbrev dates_differ : Option Date → Option Date → Bool
dates_differ (some a) (some b) = not (nat_beq a b)
dates_differ _ _ = false

-- given, and the same on the other side
abbrev pub both_same : Option String → Option String → Bool
both_same (some a) (some b) = a == b
both_same _ _ = false

module _ (m : MatchHost) where
  open m use {half, token_sort_ratio}

  unfoldable pub date_similarity : Date → Date → ℕ
  date_similarity left right =
      let difference = (left - right) + (right - left) in
      if nat_beq difference 0 then 2 * half else if leb difference date_near_days then half else 0

  abbrev pub text_field : String → ℕ → Option String → Option String → FieldComparison
  text_field n w (some a) (some b) = record {
    name = n;
    weight = w;
    similarity = some (token_sort_ratio a b);
  }
  text_field n w _ _ = record { name = n; weight = w; similarity = none }

  abbrev pub date_field : String → ℕ → Option Date → Option Date → FieldComparison
  date_field n w (some a) (some b) = record {
    name = n;
    weight = w;
    similarity = some (date_similarity a b);
  }
  date_field n w _ _ = record { name = n; weight = w; similarity = none }

  -- `weights.items()`, in the order of the configuration file
  unfoldable pub comparisons : RegistrySignal → RegistrySignal → List FieldComparison
  unfolding date_similarity
  comparisons q c =
      text_field "bl_number_normalized" 100 q.bl_number_normalized c.bl_number_normalized
      ∷ text_field "voyage_normalized" 25 q.voyage_normalized c.voyage_normalized
      ∷ text_field "vessel_normalized" 20 q.vessel_normalized c.vessel_normalized
      ∷ text_field "exporter_normalized" 20 q.exporter_normalized c.exporter_normalized
      ∷ date_field "shipment_date_iso" 15 q.shipment_date_iso c.shipment_date_iso
      ∷ text_field "loading_port_unlocode" 10 q.loading_port_unlocode c.loading_port_unlocode
      ∷ text_field "discharge_port_unlocode" 10 q.discharge_port_unlocode c.discharge_port_unlocode
      ∷ []

  abbrev pub weighted : ℕ → Option ℕ → ℕ
  weighted w none = 0
  weighted w (some s) = w * s

  abbrev pub counted : ℕ → Option ℕ → ℕ
  counted w none = 0
  counted w (some s) = w

  abbrev is_full : Option ℕ → Bool
  is_full none = false
  is_full (some s) = nat_beq s (2 * half)

  pub numerator : List FieldComparison → ℕ
  numerator [] = 0
  numerator (f ∷ fs) = weighted f.weight f.similarity + numerator fs

  pub denominator : List FieldComparison → ℕ
  denominator [] = 0
  denominator (f ∷ fs) = counted f.weight f.similarity + denominator fs

  unfoldable pub matched : List FieldComparison → List String
  matched [] = []
  matched (f ∷ fs) = let rest = matched fs in if is_full f.similarity then f.name ∷ rest else rest

  unfoldable pub weighted_similarity : RegistrySignal → RegistrySignal → Score × List String
  weighted_similarity q c =
      let fields = comparisons q c in
      let den = denominator fields in
      (
        if nat_beq den 0
            then record { num = 0; den = 1 }
            else record { num = numerator fields; den = den * (2 * half) },
        matched fields,
      )

unfoldable pub is_contextual : RegistrySignal → RegistrySignal → Bool
is_contextual q c =
    not (option_beq q.bl_number_normalized c.bl_number_normalized)
    && (both_same q.exporter_normalized c.exporter_normalized
        && (both_same q.vessel_normalized c.vessel_normalized
            && (both_same q.voyage_normalized c.voyage_normalized
                && (both_same q.loading_port_unlocode c.loading_port_unlocode
                    && both_same q.discharge_port_unlocode c.discharge_port_unlocode))))

unfoldable pub is_false_positive : RegistrySignal → RegistrySignal → Bool
is_false_positive q c =
    both_same q.exporter_normalized c.exporter_normalized
    && (both_differ q.bl_number_normalized c.bl_number_normalized
        && (both_differ q.vessel_normalized c.vessel_normalized
            && dates_differ q.shipment_date_iso c.shipment_date_iso))

-- `exact_fingerprint or exact_bl`
unfoldable pub is_exact : RegistrySignal → RegistrySignal → Bool
is_exact q c =
    (q.dna_fingerprint == c.dna_fingerprint)
    || same_text q.bl_number_normalized c.bl_number_normalized
