-- ===== src/Prototype/Tolerances/Agreement.antt =====
-- The amount and quantity rules of rules/ucp600.py beside those of rules/checks.py.
use trade_sentry.Prelude.{
  ℕ, ◌+◌, ◌-◌, ◌*◌, ◌≤◌, ◌≡◌, ◌↔◌, refl, ap, ◌∙◌, String, Bool, true, false, ◌&&◌, Option, [],
  arith, leb, ltb, if◌then◌else◌,
}
use trade_sentry.Prelude.Decimal.{decimal, add, sub, mul, lt, eq}
use trade_sentry.Prelude.DecimalLaws.{
  mul-decimal, le_hundredths, ge_hundredths, lt_hundredths, le_same_scale,
}
use trade_sentry.Compliance.Finding.{Host}
use trade_sentry.Compliance.Amounts.{
  check_credit_amount_tolerance as engine_amount_check,
  check_quantity_tolerance as engine_quantity_check,
}
use trade_sentry.Compliance.Amounts.Bands.{credit_check-nil_iff, quantity_check-nil_iff, percent}
use trade_sentry.Prototype.{PrototypeHost}
use trade_sentry.Prototype.Tolerances.{
  tolerance, lower_limit, upper_limit, is_between, check_credit_amount_tolerance,
  check_quantity_tolerance,
}

less_tolerance :
    (about : Bool) → sub (decimal 1 0) (tolerance about) ≡ decimal (100 - percent about) 2
unfolding sub
less_tolerance true = refl
less_tolerance false = refl

more_tolerance :
    (about : Bool) → add (decimal 1 0) (tolerance about) ≡ decimal (100 + percent about) 2
unfolding add
more_tolerance true = refl
more_tolerance false = refl

lower_limit-decimal :
    (c s : ℕ) (about : Bool)
    → lower_limit (decimal c s) about ≡ decimal (c * (100 - percent about)) (s + 2)
lower_limit-decimal c s about =
    ap (mul (decimal c s)) (less_tolerance about) ∙ mul-decimal c s (100 - percent about) 2

upper_limit-decimal :
    (c s : ℕ) (about : Bool)
    → upper_limit (decimal c s) about ≡ decimal (c * (100 + percent about)) (s + 2)
upper_limit-decimal c s about =
    ap (mul (decimal c s)) (more_tolerance about) ∙ mul-decimal c s (100 + percent about) 2

in_limits :
    (c x s : ℕ) (about : Bool)
    → is_between (lower_limit (decimal c s) about) (upper_limit (decimal c s) about) (decimal x s)
      ≡ (leb (c * (100 - percent about)) (x * 100) && leb (x * 100) (c * (100 + percent about)))
in_limits c x s about = rw (
  lower_limit-decimal c s about,
  upper_limit-decimal c s about,
  le_hundredths (c * (100 - percent about)) x s,
  ge_hundredths (c * (100 + percent about)) x s,
)

above_limit :
    (c x s : ℕ) (about : Bool)
    → lt (upper_limit (decimal c s) about) (decimal x s) ≡ ltb (c * (100 + percent about)) (x * 100)
above_limit c x s about =
    rw (upper_limit-decimal c s about) (lt_hundredths (c * (100 + percent about)) x s)

in_bulk_limits :
    (q x s : ℕ)
    → is_between
        (mul (decimal q s) (decimal 95 2))
        (mul (decimal q s) (decimal 105 2))
        (decimal x s)
      ≡ (leb (q * 95) (x * 100) && leb (x * 100) (q * 105))
in_bulk_limits q x s = rw (
  mul-decimal q s 95 2,
  mul-decimal q s 105 2,
  le_hundredths (q * 95) x s,
  ge_hundredths (q * 105) x s,
)

eq_same_scale : (a b s : ℕ) → eq (decimal a s) (decimal b s) ≡ (leb a b && leb b a)
unfolding eq
eq_same_scale a b s = rw (le_same_scale a b s, le_same_scale b a s) refl

module _ (h : PrototypeHost) where
  amount_check-nil_iff :
      (credit invoice drawing scale : ℕ) (about : Bool)
      → (check_credit_amount_tolerance h
            (decimal credit scale)
            (decimal invoice scale)
            (decimal drawing scale)
            about
          ≡ [])
        ↔ ((credit * (100 - percent about) ≤ invoice * 100)
            × (invoice * 100 ≤ credit * (100 + percent about))
            × (drawing * 100 ≤ credit * (100 + percent about)))
  unfolding check_credit_amount_tolerance
  amount_check-nil_iff c i d s about =
      ground (arith, in_limits c i s about, above_limit c d s about)

  quantity_check-nil :
      (expected presented scale : ℕ) (is_bulk within : Bool)
      → check_quantity_tolerance h (decimal expected scale) (decimal presented scale) is_bulk within
        ≡ []
      → let slack : ℕ = if is_bulk && within then 5 else 0 in
        (expected * (100 - slack) ≤ presented * 100) × (presented * 100 ≤ expected * (100 + slack))
  unfolding check_quantity_tolerance
  quantity_check-nil q p s true true = ground (arith, in_bulk_limits q p s)
  quantity_check-nil q p s true false = ground (arith, in_bulk_limits q p s)
  quantity_check-nil q p s false true = ground (arith, eq_same_scale p q s)
  quantity_check-nil q p s false false = ground (arith, eq_same_scale p q s)

  module _ (e : Host) (document_id : String) (page_ref : Option ℕ) where
    -- For amounts and quantities in one minor unit: the prototype's amount rule reports nothing exactly
    -- if the engine's reports nothing, and a quantity about which the prototype's rule reports nothing
    -- is one about which the engine's reports nothing.
    pub tolerance_rules_agree :
        (credit invoice drawing expected presented scale : ℕ) (about is_bulk within : Bool)
        → ((check_credit_amount_tolerance h
                (decimal credit scale)
                (decimal invoice scale)
                (decimal drawing scale)
                about
              ≡ [])
            ↔ (engine_amount_check e
                  (decimal credit scale)
                  (decimal invoice scale)
                  (decimal drawing scale)
                  about
                  document_id
                  page_ref
                ≡ []))
          × (check_quantity_tolerance h
                  (decimal expected scale)
                  (decimal presented scale)
                  is_bulk
                  within
                ≡ []
              → engine_quantity_check e
                  (decimal expected scale)
                  (decimal presented scale)
                  is_bulk
                  within
                  document_id
                  page_ref
                ≡ [])
    tolerance_rules_agree c i d q p s about is_bulk within =
        let mine = amount_check-nil_iff c i d s about in
        let theirs = credit_check-nil_iff e document_id page_ref c i d s about in
        (
          ((λ x. theirs.1 (mine.0 x)), (λ x. mine.1 (theirs.0 x))),
          (λ x.
              (quantity_check-nil_iff e document_id page_ref q p s is_bulk within).1
                (quantity_check-nil q p s is_bulk within x)),
        )
