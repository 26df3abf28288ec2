-- ===== src/Prelude/DecimalLaws.antt =====
-- Decimals that are not negative: products and comparisons as those of numbers.
use Prim.Native.Nat.{ℕ, ◌+◌, ◌*◌, ◌^◌, ◌<◌}
use mathlib.Core.Path.{◌≡◌, ◌∙◌}
use mathlib.Core.Logic.{inl, inr}
use native.Mathlib.Omega.{arith}
use native.Mathlib.Nat.{one-le-pow, mul-le-mul_right, le_of_mul-le-mul_right, mul_assoc}
use native.Mathlib.Numerals.{towards_suc}
use trade_sentry.Prelude.Tests.{leb, ltb, leb→le, le→leb, Bool-cases}
use trade_sentry.Prelude.Int.{pos, ◌*ℤ◌, leb_ℤ, ltb_ℤ}
use trade_sentry.Prelude.Decimal.{decimal, mul, le, lt, rescale}

pow_pos : (s : ℕ) → 0 < 10 ^ s
pow_pos s = one-le-pow s 10 (omega arith)

pub pow_add_two : (s : ℕ) → 10 ^ (s + 2) ≡ 100 * 10 ^ s
pow_add_two s = simp towards_suc (omega arith)

*ℤ_pos : (a b : ℕ) → pos a *ℤ pos b ≡ pos (a * b)
unfolding ◌*ℤ◌
*ℤ_pos a b = ground arith

pub mul-decimal : (a s b t : ℕ) → mul (decimal a s) (decimal b t) ≡ decimal (a * b) (s + t)
unfolding mul
mul-decimal a s b t = rw (*ℤ_pos a b)

rescale-decimal : (a s t : ℕ) → rescale (decimal a s) t ≡ pos (a * 10 ^ t)
unfolding rescale
rescale-decimal a s t = *ℤ_pos a (10 ^ t)

leb_pos : (a b : ℕ) → leb_ℤ (pos a) (pos b) ≡ leb a b
leb_pos a b = ground arith

ltb_pos : (a b : ℕ) → ltb_ℤ (pos a) (pos b) ≡ ltb a b
ltb_pos a b = ground arith

pub le-decimal : (a s b t : ℕ) → le (decimal a s) (decimal b t) ≡ leb (a * 10 ^ t) (b * 10 ^ s)
unfolding le
le-decimal a s b t = rw (rescale-decimal a s t, rescale-decimal b t s) (leb_pos _ _)

pub lt-decimal : (a s b t : ℕ) → lt (decimal a s) (decimal b t) ≡ ltb (a * 10 ^ t) (b * 10 ^ s)
unfolding lt
lt-decimal a s b t = rw (rescale-decimal a s t, rescale-decimal b t s) (ltb_pos _ _)

pub leb_scaled : (a b p : ℕ) → 0 < p → leb (a * p) (b * p) ≡ leb a b
leb_scaled a b p h = elim (Bool-cases (leb a b)) [
  | inl e ↦ rw e (le→leb _ _ (mul-le-mul_right p (leb→le a b e)))
  | inr e ↦ elim (Bool-cases (leb (a * p) (b * p))) [
    | inl f ↦
        absurd (ground (arith, le_of_mul-le-mul_right {m = a} {n = b} {k = p} (leb→le _ _ f) h))
    | inr f ↦ rw (e, f)
  ]
]

pub ltb_scaled : (a b p : ℕ) → 0 < p → ltb (a * p) (b * p) ≡ ltb a b
ltb_scaled a b p h = ground (arith, leb_scaled b a p h)

-- At one scale, and with a product at two more digits.
pub le_hundredths : (a b s : ℕ) → le (decimal a (s + 2)) (decimal b s) ≡ leb a (b * 100)
le_hundredths a b s =
    le-decimal a (s + 2) b s
    ∙ rw (pow_add_two s)
        (rw (← mul_assoc b 100 (10 ^ s)) (leb_scaled a (b * 100) (10 ^ s) (pow_pos s)))

pub ge_hundredths : (a b s : ℕ) → le (decimal b s) (decimal a (s + 2)) ≡ leb (b * 100) a
ge_hundredths a b s =
    le-decimal b s a (s + 2)
    ∙ rw (pow_add_two s)
        (rw (← mul_assoc b 100 (10 ^ s)) (leb_scaled (b * 100) a (10 ^ s) (pow_pos s)))

pub lt_hundredths : (a b s : ℕ) → lt (decimal a (s + 2)) (decimal b s) ≡ ltb a (b * 100)
lt_hundredths a b s =
    lt-decimal a (s + 2) b s
    ∙ rw (pow_add_two s)
        (rw (← mul_assoc b 100 (10 ^ s)) (ltb_scaled a (b * 100) (10 ^ s) (pow_pos s)))

pub gt_hundredths : (a b s : ℕ) → lt (decimal b s) (decimal a (s + 2)) ≡ ltb (b * 100) a
gt_hundredths a b s =
    lt-decimal b s a (s + 2)
    ∙ rw (pow_add_two s)
        (rw (← mul_assoc b 100 (10 ^ s)) (ltb_scaled (b * 100) a (10 ^ s) (pow_pos s)))

pub le_same_scale : (a b s : ℕ) → le (decimal a s) (decimal b s) ≡ leb a b
le_same_scale a b s = le-decimal a s b s ∙ leb_scaled a b (10 ^ s) (pow_pos s)

pub lt_same_scale : (a b s : ℕ) → lt (decimal a s) (decimal b s) ≡ ltb a b
lt_same_scale a b s = lt-decimal a s b s ∙ ltb_scaled a b (10 ^ s) (pow_pos s)
