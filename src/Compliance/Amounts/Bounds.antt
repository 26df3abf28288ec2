-- ===== src/Compliance/Amounts/Bounds.antt =====
-- The bounds of a tolerance band, as decimals of the base's scale or two more digits.
use native.Mathlib.Nat.{mul-one, add-zero}
use trade_sentry.Prelude.{ℕ, ◌+◌, ◌*◌, ◌≡◌, refl, ◌&&◌, ◌∙◌, ap, leb, ltb}
use trade_sentry.Prelude.Decimal.{decimal, add, sub, mul, lt}
use trade_sentry.Prelude.DecimalLaws.{
  mul-decimal, le_hundredths, ge_hundredths, lt_hundredths, le_same_scale, lt_same_scale,
}
use trade_sentry.Compliance.Model.{about_tolerance, bulk_tolerance}
use trade_sentry.Compliance.Amounts.{lower_bound, upper_bound, in_band}

lower_percent :
    (c s p q : ℕ)
    → sub (decimal 1 0) (decimal p 2) ≡ decimal q 2
    → lower_bound (decimal c s) (decimal p 2) ≡ decimal (c * q) (s + 2)
unfolding lower_bound
lower_percent c s p q e = ap (mul (decimal c s)) e ∙ mul-decimal c s q 2

upper_percent :
    (c s p q : ℕ)
    → add (decimal 1 0) (decimal p 2) ≡ decimal q 2
    → upper_bound (decimal c s) (decimal p 2) ≡ decimal (c * q) (s + 2)
unfolding upper_bound
upper_percent c s p q e = ap (mul (decimal c s)) e ∙ mul-decimal c s q 2

one_less_ten : sub (decimal 1 0) (decimal 10 2) ≡ decimal 90 2
unfolding sub
one_less_ten = refl

one_more_ten : add (decimal 1 0) (decimal 10 2) ≡ decimal 110 2
unfolding add
one_more_ten = refl

one_less_five : sub (decimal 1 0) (decimal 5 2) ≡ decimal 95 2
unfolding sub
one_less_five = refl

one_more_five : add (decimal 1 0) (decimal 5 2) ≡ decimal 105 2
unfolding add
one_more_five = refl

lower_none : (c s : ℕ) → lower_bound (decimal c s) (decimal 0 0) ≡ decimal c s
unfolding lower_bound sub
lower_none c s = mul-decimal c s 1 0 ∙ rw (mul-one, add-zero)

upper_none : (c s : ℕ) → upper_bound (decimal c s) (decimal 0 0) ≡ decimal c s
unfolding upper_bound add
upper_none c s = mul-decimal c s 1 0 ∙ rw (mul-one, add-zero)

pub in_about_band :
    (c x s : ℕ)
    → in_band (decimal c s) about_tolerance (decimal x s)
      ≡ (leb (c * 90) (x * 100) && leb (x * 100) (c * 110))
in_about_band c x s = rw (
  lower_percent c s 10 90 one_less_ten,
  upper_percent c s 10 110 one_more_ten,
  le_hundredths (c * 90) x s,
  ge_hundredths (c * 110) x s,
)

pub in_bulk_band :
    (c x s : ℕ)
    → in_band (decimal c s) bulk_tolerance (decimal x s)
      ≡ (leb (c * 95) (x * 100) && leb (x * 100) (c * 105))
in_bulk_band c x s = rw (
  lower_percent c s 5 95 one_less_five,
  upper_percent c s 5 105 one_more_five,
  le_hundredths (c * 95) x s,
  ge_hundredths (c * 105) x s,
)

pub in_exact_band :
    (c x s : ℕ) → in_band (decimal c s) (decimal 0 0) (decimal x s) ≡ (leb c x && leb x c)
in_exact_band c x s = rw (lower_none c s, upper_none c s, le_same_scale c x s, le_same_scale x c s)

pub above_about :
    (c x s : ℕ)
    → lt (upper_bound (decimal c s) about_tolerance) (decimal x s) ≡ ltb (c * 110) (x * 100)
above_about c x s = rw (upper_percent c s 10 110 one_more_ten) (lt_hundredths (c * 110) x s)

pub above_exact : (c x s : ℕ) → lt (upper_bound (decimal c s) (decimal 0 0)) (decimal x s) ≡ ltb c x
above_exact c x s = rw (upper_none c s) (lt_same_scale c x s)
