-- ===== src/CrossIbu/Matcher/Bounds.antt =====
-- The weighted similarity lies between 0.0 and 1.0.
use native.Mathlib.Nat.{div-add-mod, le_of_mul-le-mul_left, mul-le-mul_left, mul-le-mul_right}
use native.Mathlib.Decide.{dec_lt}
use mathlib.Core.Path.{subst}
use trade_sentry.Prelude.{
  ◌⊎◌, inl, inr, All, nat_beq, Bool-cases, none, some, Option, ℕ, ◌+◌, ◌*◌, ◌/◌, ◌%◌, ◌≤◌, ◌<◌,
  String, ◌≡◌, List, [], ◌∷◌, arith, ltb, if◌then◌else◌,
}
use trade_sentry.Contracts.Fields.{Date}
use trade_sentry.CrossIbu.Model.{MatchHost, RegistrySignal}
use trade_sentry.CrossIbu.Matcher.{
  Score, round_six, weighted, counted, text_field, date_field, date_similarity, FieldComparison,
  numerator, denominator, weighted_similarity, comparisons,
}

quotient_cases :
    (d q r : ℕ) → 0 < d → d * q + r ≤ d * 1_000_000 → (q < 1_000_000) ⊎ ((q ≡ 1_000_000) × (r ≡ 0))
quotient_cases d q r pos h =
    let bound : q ≤ 1_000_000 =
      le_of_mul-le-mul_left {m = q} {n = 1_000_000} {k = d} (omega arith) pos in
    elim (dec_lt q 1_000_000) [
      | yes below ↦ inl below
      | no above ↦
          let e : q ≡ 1_000_000 = omega arith in
          inr (e, omega (arith, subst (λ x. d * x + r ≤ d * 1_000_000) e h))
    ]

rounded-le :
    (d q r : ℕ)
    → 0 < d
    → (q < 1_000_000) ⊎ ((q ≡ 1_000_000) × (r ≡ 0))
    → (if ltb (2 * r) d then q else if ltb d (2 * r) then q + 1 else q + q % 2) ≤ 1_000_000
rounded-le d q r pos (inl below) = ground arith
rounded-le d q r pos (inr both) = ground arith

-- A score of at most 1.0 is rounded to at most a million millionths.
round_six-le : (s : Score) → 0 < s.den → s.num ≤ s.den → round_six s ≤ 1_000_000
unfolding round_six
round_six-le s pos h =
    let n = s.num * 1_000_000 in
    let whole : s.den * (n / s.den) + n % s.den ≡ n = div-add-mod n s.den in
    let scaled : n ≤ s.den * 1_000_000 = omega (arith, mul-le-mul_right 1_000_000 h) in
    rounded-le s.den (n / s.den) (n % s.den) pos
      (quotient_cases s.den (n / s.den) (n % s.den) pos (omega arith))

-- A similarity, where both sides have the field, is at most `2 * half`.
abbrev IsBounded : ℕ → Option ℕ → Type 0
IsBounded half none = Unit
IsBounded half (some s) = s ≤ 2 * half

abbrev IsScored : ℕ → FieldComparison → Type 0
IsScored half f = IsBounded half f.similarity

module _ (m : MatchHost) where
  open m use {half, token_sort_ratio}

  weighted-le :
      (w : ℕ) (o : Option ℕ) → IsBounded half o → weighted m w o ≤ counted m w o * (2 * half)
  weighted-le w none _ = omega arith
  weighted-le w (some s) h = mul-le-mul_left w h

  numerator-le :
      (fs : List FieldComparison)
      → All (IsScored half) fs
      → numerator m fs ≤ denominator m fs * (2 * half)
  unfolding numerator denominator
  numerator-le [] _ = omega arith
  numerator-le (f ∷ fs) (s, ss) =
      omega (arith, weighted-le f.weight f.similarity s, numerator-le fs ss)

  date_field-IsScored :
      (n : String) (w : ℕ) (a b : Option Date) → IsScored half (date_field m n w a b)
  unfolding date_similarity
  date_field-IsScored n w none b = tt
  date_field-IsScored n w (some a) none = tt
  date_field-IsScored n w (some a) (some b) = ground arith

  module _ (bounded : (a b : String) → token_sort_ratio a b ≤ 2 * half) where
    text_field-IsScored :
        (n : String) (w : ℕ) (a b : Option String) → IsScored half (text_field m n w a b)
    text_field-IsScored n w none b = tt
    text_field-IsScored n w (some a) none = tt
    text_field-IsScored n w (some a) (some b) = bounded a b

    comparisons-IsScored : (q c : RegistrySignal) → All (IsScored half) (comparisons m q c)
    unfolding comparisons
    comparisons-IsScored q c = (
      text_field-IsScored "bl_number_normalized" 100 q.bl_number_normalized c.bl_number_normalized,
      (
        text_field-IsScored "voyage_normalized" 25 q.voyage_normalized c.voyage_normalized,
        (
          text_field-IsScored "vessel_normalized" 20 q.vessel_normalized c.vessel_normalized,
          (
            text_field-IsScored "exporter_normalized" 20 q.exporter_normalized
                c.exporter_normalized,
            (
              date_field-IsScored "shipment_date_iso" 15 q.shipment_date_iso c.shipment_date_iso,
              (
                text_field-IsScored "loading_port_unlocode" 10 q.loading_port_unlocode
                    c.loading_port_unlocode,
                (
                  text_field-IsScored "discharge_port_unlocode" 10 q.discharge_port_unlocode
                      c.discharge_port_unlocode,
                  tt,
                ),
              ),
            ),
          ),
        ),
      ),
    )

  scored : (fs : List FieldComparison) → Score
  scored fs =
      if nat_beq (denominator m fs) 0
      then record { num = 0; den = 1 }
      else record { num = numerator m fs; den = denominator m fs * (2 * half) }

  scored_bounds :
      (fs : List FieldComparison)
      → 0 < half
      → numerator m fs ≤ denominator m fs * (2 * half)
      → (0 < (scored fs).den) × ((scored fs).num ≤ (scored fs).den)
  unfolding scored
  scored_bounds fs pos h = elim (Bool-cases (nat_beq (denominator m fs) 0)) [
    | inl e ↦ rw e (omega arith, omega arith)
    | inr e ↦ rw e (grind arith, h)
  ]

  -- If the similarities of texts lie between 0.0 and 1.0, the denominator of the weighted similarity
  -- is not zero, and the similarity, also when rounded to six places, is at most 1.0.
  pub weighted_similarity_bounds :
      0 < half
      → ((a b : String) → token_sort_ratio a b ≤ 2 * half)
      → (q c : RegistrySignal)
      → let score = (weighted_similarity m q c).0 in
        (0 < score.den) × (score.num ≤ score.den) × (round_six score ≤ 1_000_000)
  unfolding weighted_similarity
  weighted_similarity_bounds pos bounded q c =
      let fs = comparisons m q c in
      let (p, h) = scored_bounds fs pos (numerator-le fs (comparisons-IsScored bounded q c)) in
      unfold scored in (p, h, round_six-le (scored fs) p h)
