-- ===== src/Prototype/Matching.antt =====
-- rules/cross_ibu_similarity.py: the prototype's matcher. Floats are exact fractions.
pub mod Reach
use trade_sentry.Prelude.{
  ℕ, ◌+◌, ◌-◌, ◌*◌, ◌/◌, ◌%◌, String, Bool, true, false, ◌&&◌, Option, none, some, List, [], ◌∷◌,
  map, if◌then◌else◌, ltb, leb, nat_beq, string_eq, ◌==◌,
}
use trade_sentry.Prelude.Text.{is_text}

-- `upper` and `lower` of `str`, `date.fromisoformat` as a day number if it does not raise, and
-- RapidFuzz's `token_sort_ratio` in a unit in which 100.0 is `2 * half`.
pub record MatchingHost : Type 0 where
  pub upper : String → String
  pub lower : String → String
  pub fromisoformat : String → Option ℕ
  pub half : ℕ
  pub token_sort_ratio : String → String → ℕ

-- `FIELD_WEIGHTS`, in hundredths
abbrev pub field_weights : List (String × ℕ)
field_weights =
    ("bl_number_normalized", 100)
    ∷ ("voyage_normalized", 25)
    ∷ ("vessel_normalized", 20)
    ∷ ("exporter_normalized", 20)
    ∷ ("shipment_date_iso", 15)
    ∷ ("loading_port_unlocode", 10)
    ∷ ("discharge_port_unlocode", 10)
    ∷ []

-- `sum(FIELD_WEIGHTS.values())`
abbrev pub sum_weights : List (String × ℕ) → ℕ
sum_weights [] = 0
sum_weights ((f, w) ∷ ws) = w + sum_weights ws

abbrev pub total_weight : ℕ
total_weight = sum_weights field_weights

-- the thresholds in ten-thousandths, the unit of a rounded similarity
abbrev pub threshold_likely_duplicate : ℕ
threshold_likely_duplicate = 9_500

abbrev pub threshold_possible_match : ℕ
threshold_possible_match = 8_500

-- a transaction as the dictionary of its fields
abbrev pub Transaction : Type 0
Transaction = List (String × String)

-- `transaction.get(field)`
abbrev pub get : (field : String) → Transaction → Option String
get field [] = none
get field ((k, v) ∷ t) = if k == field then some v else get field t

-- `transaction.get(field, "")`
abbrev pub text_or_empty : Option String → String
text_or_empty none = ""
text_or_empty (some v) = v

abbrev pub get_or_empty : (field : String) → Transaction → String
get_or_empty field t = text_or_empty (get field t)

-- `if transaction.get(field)`
abbrev pub is_given : Option String → Bool
is_given none = false
is_given (some v) = is_text v

-- `round(a / b, 4)` in ten-thousandths, a tie to the even neighbour
unfoldable pub round_four : (a b : ℕ) → ℕ
round_four a b =
    let q = a * 10_000 / b in
    let r = a * 10_000 % b in
    if ltb (2 * r) b then q else if ltb b (2 * r) then q + 1 else q + q % 2

pub data MatchLevel : Type 0 where
  exact near nothing : MatchLevel

pub data MatchSignal : Type 0 where
  likely_duplicate possible_match no_signal : MatchSignal

-- of a similarity in ten-thousandths
unfoldable pub classify_match : ℕ → MatchLevel × MatchSignal
classify_match similarity =
    if leb 10_000 similarity
    then (exact, likely_duplicate)
    else if leb threshold_likely_duplicate similarity
    then (near, likely_duplicate)
    else if leb threshold_possible_match similarity
    then (near, possible_match)
    else (nothing, no_signal)

module _ (h : MatchingHost) where
  open h use {upper, lower, fromisoformat, half, token_sort_ratio}

  -- `1.0` is `2 * half`
  abbrev pub day_similarity : Option ℕ → Option ℕ → ℕ
  day_similarity (some a) (some b) =
      let diff = (a - b) + (b - a) in
      if nat_beq diff 0 then 2 * half else if leb diff 7 then half else 0
  day_similarity _ _ = 0

  abbrev pub text_similarity : (field_name a b : String) → ℕ
  text_similarity field_name a b =
      if field_name == "bl_number_normalized"
      then if upper a == upper b then 2 * half else 0
      else if field_name == "shipment_date_iso"
      then day_similarity (fromisoformat a) (fromisoformat b)
      else token_sort_ratio (lower a) (lower b)

  unfoldable pub field_similarity : (field_name : String) → Option String → Option String → ℕ
  field_similarity field_name (some a) (some b) = text_similarity field_name a b
  field_similarity field_name _ _ = 0

  -- the field's similarity in the loop
  abbrev pub compared : (field : String) → Transaction → Transaction → ℕ
  compared field a b =
      field_similarity field (some (get_or_empty field a)) (some (get_or_empty field b))

  -- one pass of the loop: the field's part of the score and whether it is named as matched
  abbrev pub add_field : (field : String) → (weight sim : ℕ) → ℕ × List String → ℕ × List String
  add_field field weight sim (score, names) =
      (weight * sim + score, if leb (85 * (2 * half)) (100 * sim) then field ∷ names else names)

  -- the loop over the fields; the bill's number is skipped
  unfoldable pub compare_fields : List (String × ℕ) → Transaction → Transaction → ℕ × List String
  compare_fields [] a b = (0, [])
  compare_fields ((field, weight) ∷ ws) a b =
      let rest = compare_fields ws a b in
      if field == "bl_number_normalized"
      then rest
      else add_field field weight (compared field a b) rest

  -- both transactions have the same bill of lading number, which is given
  unfoldable pub same_bill : Transaction → Transaction → Bool
  same_bill a b =
      (upper (get_or_empty "bl_number_normalized" a)
        == upper (get_or_empty "bl_number_normalized" b))
      && is_given (get "bl_number_normalized" a)

  -- the similarity in ten-thousandths with the fields that matched
  unfoldable pub weighted_similarity : Transaction → Transaction → ℕ × List String
  weighted_similarity a b =
      let (score, names) = compare_fields field_weights a b in
      if same_bill a b
      then (10_000, map (λ f. f.0) field_weights)
      else (round_four score (total_weight * (2 * half)), names)
