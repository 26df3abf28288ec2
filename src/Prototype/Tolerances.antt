-- ===== src/Prototype/Tolerances.antt =====
-- rules/ucp600.py: `check_credit_amount_tolerance` and `check_quantity_tolerance`.
pub mod Agreement
use Prim.Native.String.{◌++◌ as ◌+◌}
use trade_sentry.Prelude.{String, Bool, true, false, ◌&&◌, not, List, [], ◌∷◌, ◌++◌, if◌then◌else◌}
use trade_sentry.Prelude.Decimal.{Decimal, decimal, add, sub, mul, le, lt, eq}
use trade_sentry.Prototype.{material, text, flag, Finding, PrototypeHost, found, when}

abbrev pub tolerance : (about_flag : Bool) → Decimal
tolerance about_flag = if about_flag then decimal 10 2 else decimal 0 2

abbrev pub lower_limit : (credit_amount : Decimal) (about_flag : Bool) → Decimal
lower_limit credit_amount about_flag = mul credit_amount (sub (decimal 1 0) (tolerance about_flag))

abbrev pub upper_limit : (credit_amount : Decimal) (about_flag : Bool) → Decimal
upper_limit credit_amount about_flag = mul credit_amount (add (decimal 1 0) (tolerance about_flag))

-- `lower <= x <= upper`
abbrev pub is_between : (lower upper x : Decimal) → Bool
is_between lower upper x = le lower x && le x upper

module _ (h : PrototypeHost) where
  open h use {str}

  unfoldable pub check_credit_amount_tolerance :
      (credit_amount invoice_amount drawing_amount : Decimal) (about_flag : Bool) → List Finding
  check_credit_amount_tolerance credit invoice drawing about_flag =
      let lower = lower_limit credit about_flag in
      let upper = upper_limit credit about_flag in
      when (not (is_between lower upper invoice)) (
        found "UCP600-ART30A-AMOUNT-TOLERANCE" "UCP 600 Art. 30(a) / Art. 18" "invoice_amount"
          ("Between "
            + (str lower
                + (" and "
                    + (str upper
                        + (" (tolerance: " + ((if about_flag then "±10%" else "0%") + ")"))))))
          (str invoice) material
          (("credit_amount", text (str credit))
            ∷ ("about_flag", flag about_flag)
            ∷ ("tolerance_pct", text (if about_flag then "10%" else "0%"))
            ∷ ("lower_bound", text (str lower))
            ∷ ("upper_bound", text (str upper))
            ∷ []))
      ++ when (lt upper drawing) (
          found "UCP600-ART30C-DRAWING-EXCEEDS" "UCP 600 Art. 30(c)" "drawing_amount"
            ("<= " + str upper) (str drawing) material
            (("credit_amount", text (str credit))
              ∷ ("drawing_amount", text (str drawing))
              ∷ ("upper_limit", text (str upper))
              ∷ ("excess", text (str (sub drawing upper)))
              ∷ []))

  unfoldable pub check_quantity_tolerance :
      (lc_quantity presented_quantity : Decimal)
      (is_bulk_or_generic total_drawing_within_credit : Bool)
      → List Finding
  check_quantity_tolerance lc_quantity presented is_bulk within =
      let lower = mul lc_quantity (decimal 95 2) in
      let upper = mul lc_quantity (decimal 105 2) in
      if is_bulk
      then when (not (is_between lower upper presented)) (
          found "UCP600-ART30B-QUANTITY-TOLERANCE" "UCP 600 Art. 30(b)" "quantity"
            ("Between " + (str lower + (" and " + (str upper + " (±5% bulk tolerance)"))))
            (str presented) material
            (("lc_quantity", text (str lc_quantity))
              ∷ ("presented", text (str presented))
              ∷ ("tolerance", text "±5%")
              ∷ ("lower", text (str lower))
              ∷ ("upper", text (str upper))
              ∷ []))
        ++ when (not within) (
            found "UCP600-ART30B-DRAWING-EXCEEDS" "UCP 600 Art. 30(b)" "drawing_amount"
              "Drawing must not exceed credit amount" "Drawing exceeds credit amount" material
              (("note", text "Art 30(b) quantity tolerance invalidated") ∷ []))
      else when (not (eq presented lc_quantity)) (
          found "UCP600-ART30B-QUANTITY-EXACT" "UCP 600 Art. 30(b)" "quantity"
            ("Exactly " + (str lc_quantity + " (packaged goods — no tolerance)")) (str presented)
            material
            (("lc_quantity", text (str lc_quantity))
              ∷ ("presented", text (str presented))
              ∷ ("is_bulk", flag false)
              ∷ []))
