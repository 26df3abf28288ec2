-- ===== src/Fraud/Price/Bands.antt =====
-- fraud_tbml/price_benchmark.py: the bands of the signal.
use Prim.Native.Nat.{◌^◌}
use native.Mathlib.Nat.{mul_assoc, one-le-pow}
use native.Mathlib.Numerals.{towards_suc}
use trade_sentry.Prelude.{ℕ, ◌+◌, ◌*◌, ◌≤◌, ◌<◌, ◌≡◌, ◌↔◌, ap, ◌∙◌, leb, if◌then◌else◌, arith}
use trade_sentry.Prelude.Decimal.{decimal, le, mul}
use trade_sentry.Prelude.DecimalLaws.{mul-decimal, le-decimal, le_same_scale, leb_scaled}
use trade_sentry.Fraud.{PriceSignal, normal, review, significant_anomaly}
use trade_sentry.Fraud.Price.{price_signal}

pow_suc : (s : ℕ) → 10 ^ (s + 1) ≡ 10 * 10 ^ s
pow_suc s = simp towards_suc (omega arith)

pub le_tenths : (v b s : ℕ) → le (decimal v s) (decimal b (s + 1)) ≡ leb (v * 10) b
le_tenths v b s =
    le-decimal v s b (s + 1)
    ∙ rw (pow_suc s) (
        rw (← mul_assoc v 10 (10 ^ s))
          (leb_scaled (v * 10) b (10 ^ s) (one-le-pow s 10 (omega arith))))

bands :
    (v p : ℕ)
    → let signal : PriceSignal =
        if leb v p then normal else if leb (v * 10) (p * 15) then review else significant_anomaly in
      ((signal ≡ normal) ↔ (v ≤ p))
      × ((signal ≡ review) ↔ ((p < v) × (2 * v ≤ 3 * p)))
      × ((signal ≡ significant_anomaly) ↔ (3 * p < 2 * v))
bands v p = ground arith

-- A value is normal up to the 90th percentile, a case for review above it and up to one and a half of
-- it, and an anomaly beyond.
pub price_signal_bands :
    (value p90 scale : ℕ)
    → let signal : PriceSignal = price_signal (decimal value scale) (decimal p90 scale) in
      ((signal ≡ normal) ↔ (value ≤ p90))
      × ((signal ≡ review) ↔ ((p90 < value) × (2 * value ≤ 3 * p90)))
      × ((signal ≡ significant_anomaly) ↔ (3 * p90 < 2 * value))
unfolding price_signal
price_signal_bands value p90 scale =
    let low : le (decimal value scale) (decimal p90 scale) ≡ leb value p90 =
      le_same_scale value p90 scale in
    let high : le (decimal value scale) (mul (decimal p90 scale) (decimal 15 1))
        ≡ leb (value * 10) (p90 * 15) =
      ap (le (decimal value scale)) (mul-decimal p90 scale 15 1)
      ∙ le_tenths value (p90 * 15) scale in
    rw (low, high) (bands value p90)
