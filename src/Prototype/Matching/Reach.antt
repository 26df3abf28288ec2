-- ===== src/Prototype/Matching/Reach.antt =====
-- What the prototype's matcher can find.
use native.Mathlib.Nat.{mul-le-mul_left, le_of_mul-le-mul_left, div-add-mod}
use mathlib.Core.Path.{subst}
use trade_sentry.Prelude.{
  ℕ, ◌+◌, ◌*◌, ◌/◌, ◌%◌, ◌≤◌, ◌<◌, String, ◌≡◌, refl, inl, inr, none, some, Option, List, [], ◌∷◌,
  arith, if◌then◌else◌, Bool-cases, string_eq, ◌==◌,
}
use trade_sentry.Prototype.Matching.{
  MatchingHost, Transaction, field_weights, get_or_empty, compared, compare_fields, day_similarity,
  field_similarity, same_bill, round_four, classify_match, weighted_similarity, exact,
  likely_duplicate, nothing, no_signal,
}

-- what the fields other than the bill's number weigh
weight_without_bill : List (String × ℕ) → ℕ
weight_without_bill [] = 0
weight_without_bill ((field, w) ∷ ws) =
    if field == "bl_number_normalized" then weight_without_bill ws else w + weight_without_bill ws

weight_of_fields : weight_without_bill field_weights ≡ 100
unfolding weight_without_bill
weight_of_fields = refl

-- A score of at most a half is rounded to at most a half and a ten-thousandth.
round_four-le : (score full : ℕ) → 0 < full → score * 2 ≤ full → round_four score full ≤ 5_001
unfolding round_four
round_four-le score full pos h =
    let n = score * 10_000 in
    let whole : full * (n / full) + n % full ≡ n = div-add-mod n full in
    let q : n / full ≤ 5_000 =
      le_of_mul-le-mul_left {m = n / full} {n = 5_000} {k = full} (omega arith) pos in
    ground arith

module _ (h : MatchingHost) where
  open h use {half, token_sort_ratio}

  day_similarity-le : (a b : Option ℕ) → day_similarity h a b ≤ 2 * half
  day_similarity-le none b = omega arith
  day_similarity-le (some a) none = omega arith
  day_similarity-le (some a) (some b) = ground arith

  module _ (bounded : (a b : String) → token_sort_ratio a b ≤ 2 * half) where
    compared-le : (field : String) (a b : Transaction) → compared h field a b ≤ 2 * half
    unfolding field_similarity
    compared-le field a b =
        let x = get_or_empty field a in
        let y = get_or_empty field b in
        ground (
          arith,
          bounded (h.lower x) (h.lower y),
          day_similarity-le (h.fromisoformat x) (h.fromisoformat y),
        )

    compare_fields-le :
        (ws : List (String × ℕ)) (a b : Transaction)
        → (compare_fields h ws a b).0 ≤ weight_without_bill ws * (2 * half)
    unfolding compare_fields weight_without_bill
    compare_fields-le [] a b = omega arith
    compare_fields-le ((field, w) ∷ ws) a b = elim (Bool-cases (field == "bl_number_normalized")) [
      | inl e ↦ rw e (compare_fields-le ws a b)
      | inr e ↦
          rw e (omega (arith, mul-le-mul_left w (compared-le field a b), compare_fields-le ws a b))
    ]

    -- Where the texts' similarities are at most the full score, a pair of transactions is classified
    -- as an exact match if both have the same bill of lading number, and as no match otherwise: no
    -- likeness of the other fields is ever reported.
    pub classify_match-weighted_similarity :
        0 < half
        → (a b : Transaction)
        → classify_match (weighted_similarity h a b).0
          ≡ (if same_bill h a b then (exact, likely_duplicate) else (nothing, no_signal))
    unfolding weighted_similarity classify_match
    classify_match-weighted_similarity pos a b =
        let score = (compare_fields h field_weights a b).0 in
        let below : score ≤ 100 * (2 * half) =
          subst (λ w. score ≤ w * (2 * half)) weight_of_fields
            (compare_fields-le field_weights a b) in
        elim (Bool-cases (same_bill h a b)) [
          | inl e ↦ rw e
          | inr e ↦ rw e (ground (arith, round_four-le score (200 * (2 * half)) (omega arith)))
        ]
