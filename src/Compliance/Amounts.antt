-- ===== src/Compliance/Amounts.antt =====
-- rules/checks.py: the tolerances of Art. 30 on amounts and quantities.
mod Bounds
pub mod Bands
use trade_sentry.Prelude.{ℕ, String, Bool, ◌&&◌, not, Option, List, [], ◌∷◌, ◌++◌, if◌then◌else◌}
use trade_sentry.Prelude.Decimal.{Decimal, decimal, add, sub, mul, le, lt}
use trade_sentry.Compliance.Model.{
  art30a, art30b, art30c, material, ComplianceFinding, about_tolerance, bulk_tolerance,
}
use trade_sentry.Compliance.Finding.{Host, plain_finding, amount, span, at_most, one_if}

-- `Decimal(1) - tolerance` and `Decimal(1) + tolerance` times the base
unfoldable pub lower_bound : (base tolerance : Decimal) → Decimal
unfolding mul sub
lower_bound base tolerance = mul base (sub (decimal 1 0) tolerance)

unfoldable pub upper_bound : (base tolerance : Decimal) → Decimal
unfolding mul add
upper_bound base tolerance = mul base (add (decimal 1 0) tolerance)

abbrev pub amount_tolerance : (about_flag : Bool) → Decimal
amount_tolerance about_flag = if about_flag then about_tolerance else decimal 0 0

abbrev pub quantity_tolerance : (is_bulk total_drawing_within_credit : Bool) → Decimal
quantity_tolerance is_bulk within = if is_bulk && within then bulk_tolerance else decimal 0 0

-- `lower <= x <= upper`
abbrev pub in_band : (base tolerance x : Decimal) → Bool
in_band base tolerance x = le (lower_bound base tolerance) x && le x (upper_bound base tolerance)

module _ (h : Host) where
  unfoldable pub check_credit_amount_tolerance :
      (credit_amount invoice_amount drawing_amount : Decimal) (about_flag : Bool)
      (document_id : String) (page_ref : Option ℕ)
      → List ComplianceFinding
  check_credit_amount_tolerance credit invoice drawing about_flag document_id page_ref =
      let tolerance = amount_tolerance about_flag in
      let lower = lower_bound credit tolerance in
      let upper = upper_bound credit tolerance in
      one_if (not (in_band credit tolerance invoice)) (
        plain_finding h art30a document_id "invoice_amount" (span lower upper) (amount invoice)
          material page_ref)
      ++ one_if (lt upper drawing) (
          plain_finding h art30c document_id "drawing_amount" (at_most upper) (amount drawing)
            material page_ref)

  unfoldable pub check_quantity_tolerance :
      (lc_quantity presented_quantity : Decimal) (is_bulk_or_generic within_credit : Bool)
      (document_id : String) (page_ref : Option ℕ)
      → List ComplianceFinding
  check_quantity_tolerance lc_quantity presented is_bulk within document_id page_ref =
      let tolerance = quantity_tolerance is_bulk within in
      if in_band lc_quantity tolerance presented
      then []
      else plain_finding h art30b document_id "quantity"
          (span (lower_bound lc_quantity tolerance) (upper_bound lc_quantity tolerance))
          (amount presented) material page_ref
        ∷ []
