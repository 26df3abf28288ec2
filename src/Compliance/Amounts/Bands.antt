-- ===== src/Compliance/Amounts/Bands.antt =====
-- When the Art. 30 checks report nothing, for amounts in one minor unit (`scale` decimal places).
use trade_sentry.Prelude.{
  ℕ, ◌+◌, ◌-◌, ◌*◌, ◌≤◌, ◌≡◌, ◌↔◌, String, Bool, true, false, ◌&&◌, Option, [], arith,
  if◌then◌else◌,
}
use trade_sentry.Prelude.Decimal.{decimal}
use trade_sentry.Compliance.Finding.{Host}
use trade_sentry.Compliance.Amounts.{check_credit_amount_tolerance, check_quantity_tolerance}
use trade_sentry.Compliance.Amounts.Bounds.{
  in_about_band, in_bulk_band, in_exact_band, above_about, above_exact,
}

-- the percentage by which an amount may differ from the credit
abbrev pub percent : (about_flag : Bool) → ℕ
percent about_flag = if about_flag then 10 else 0

module _ (h : Host) (document_id : String) (page_ref : Option ℕ) where
  -- For amounts that are not negative and have one scale, the amount check reports nothing exactly
  -- when the invoice amount is within ten percent of the
  -- credit amount if the credit says "about", equal to it if not, and the drawing is at most the
  -- upper end of that range.
  pub credit_check-nil_iff :
      (credit invoice drawing scale : ℕ) (about_flag : Bool)
      → (check_credit_amount_tolerance h
            (decimal credit scale)
            (decimal invoice scale)
            (decimal drawing scale)
            about_flag
            document_id
            page_ref
          ≡ [])
        ↔ ((credit * (100 - percent about_flag) ≤ invoice * 100)
            × (invoice * 100 ≤ credit * (100 + percent about_flag))
            × (drawing * 100 ≤ credit * (100 + percent about_flag)))
  unfolding check_credit_amount_tolerance
  credit_check-nil_iff c i d s true = ground (arith, in_about_band c i s, above_about c d s)
  credit_check-nil_iff c i d s false = ground (arith, in_exact_band c i s, above_exact c d s)

  -- The quantity check reports nothing exactly when the quantity is that of the credit, or, for bulk
  -- goods whose drawing stays within the credit, within five percent of it.
  pub quantity_check-nil_iff :
      (expected presented scale : ℕ) (is_bulk within_credit : Bool)
      → let slack : ℕ = if is_bulk && within_credit then 5 else 0 in
        (check_quantity_tolerance h
            (decimal expected scale)
            (decimal presented scale)
            is_bulk
            within_credit
            document_id
            page_ref
          ≡ [])
        ↔ ((expected * (100 - slack) ≤ presented * 100)
            × (presented * 100 ≤ expected * (100 + slack)))
  unfolding check_quantity_tolerance
  quantity_check-nil_iff q p s true true = ground (arith, in_bulk_band q p s)
  quantity_check-nil_iff q p s true false = ground (arith, in_exact_band q p s)
  quantity_check-nil_iff q p s false w = ground (arith, in_exact_band q p s)
