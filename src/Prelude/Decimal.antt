-- ===== src/Prelude/Decimal.antt =====
-- Python's `Decimal` as the code uses it: a finite value `coef / 10 ^ scale`, exact products, and
-- comparisons by value.
use Prim.Native.Nat.{ℕ, ◌+◌, ◌^◌}
use mathlib.Core.Bool.{Bool, true, false, ◌&&◌}
use trade_sentry.Prelude.Tests.{nat_beq, if◌then◌else◌}
use trade_sentry.Prelude.Int.{ℤ, pos, pos_part, neg_part, ◌+ℤ◌, ◌-ℤ◌, ◌*ℤ◌, leb_ℤ, ltb_ℤ}

pub record Decimal : Type 0 where
  pub coef : ℤ
  pub scale : ℕ

-- `Decimal("0.10")` is `decimal 10 2`.
abbrev pub decimal : ℕ → ℕ → Decimal
decimal n s = record { coef = pos n; scale = s }

-- the coefficient at a scale that is larger by `s`
unfoldable pub rescale : Decimal → ℕ → ℤ
unfolding ◌*ℤ◌
rescale d s = d.coef *ℤ pos (10 ^ s)

unfoldable pub add : Decimal → Decimal → Decimal
unfolding rescale ◌+ℤ◌
add a b = record { coef = rescale a b.scale +ℤ rescale b a.scale; scale = a.scale + b.scale }

unfoldable pub sub : Decimal → Decimal → Decimal
unfolding rescale ◌-ℤ◌
sub a b = record { coef = rescale a b.scale -ℤ rescale b a.scale; scale = a.scale + b.scale }

unfoldable pub mul : Decimal → Decimal → Decimal
unfolding ◌*ℤ◌
mul a b = record { coef = a.coef *ℤ b.coef; scale = a.scale + b.scale }

-- `a <= b`
unfoldable pub le : Decimal → Decimal → Bool
unfolding rescale
le a b = leb_ℤ (rescale a b.scale) (rescale b a.scale)

-- `a < b`
unfoldable pub lt : Decimal → Decimal → Bool
unfolding rescale
lt a b = ltb_ℤ (rescale a b.scale) (rescale b a.scale)

-- `a == b`
unfoldable pub eq : Decimal → Decimal → Bool
unfolding le
eq a b = le a b && le b a

-- the truth value of a `Decimal`: whether it is not zero
unfoldable pub is_nonzero : Decimal → Bool
is_nonzero d = if nat_beq (pos_part d.coef + neg_part d.coef) 0 then false else true
