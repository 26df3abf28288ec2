-- ===== src/Prototype/Period.antt =====
-- rules/ucp600.py: `check_presentation_period`.
use Prim.Native.String.{◌++◌ as ◌+◌}
use trade_sentry.Prelude.{
  ◌+◌ as ◌+ℕ◌, Bool, false, Option, none, some, is_some, List, [], ◌∷◌, ◌++◌, ltb, nat_beq, not,
  if◌then◌else◌,
}
use trade_sentry.Prelude.Int.{ℤ, pos, pos_part, neg_part, ltb_ℤ, sub_ℕ}
use trade_sentry.Contracts.Fields.{Date}
use trade_sentry.Prototype.{material, text, flag, days, Finding, PrototypeHost, found, when}

-- the period that the credit names, also if it is zero
abbrev pub limit_days : Option ℤ → ℤ
limit_days none = pos 21
limit_days (some d) = d

abbrev pub is_nonzero_days : Option ℤ → Bool
is_nonzero_days none = false
is_nonzero_days (some d) = not (nat_beq (pos_part d +ℕ neg_part d) 0)

module _ (h : PrototypeHost) where
  open h use {show_date, show_int}

  unfoldable pub check_presentation_period :
      (is_original_transport_document : Bool) (shipment_date presentation_date expiry_date : Date)
      (credit_specific_presentation_days : Option ℤ)
      → List Finding
  check_presentation_period is_original shipment presentation expiry specific =
      let limit = limit_days specific in
      let elapsed = sub_ℕ presentation shipment in
      if is_original
      then when (ltb_ℤ limit elapsed) (
          found "UCP600-ART14C-PRESENTATION-PERIOD" "UCP 600 Art. 14(c)" "presentation_date"
            ("Within "
              + (show_int limit
                  + (" days of shipment date ("
                      + ((if is_nonzero_days specific then "credit-specific" else "21-day default")
                          + ")"))))
            (show_int elapsed + " days after shipment") material
            (("shipment_date", text (show_date shipment))
              ∷ ("presentation_date", text (show_date presentation))
              ∷ ("days_elapsed", days elapsed)
              ∷ ("limit_days", days limit)
              ∷ ("credit_specific", flag (is_some specific))
              ∷ []))
        ++ when (ltb expiry presentation) (
            found "UCP600-ART14C-EXPIRY" "UCP 600 Art. 14(c) / Art. 6" "presentation_date"
              ("On or before expiry date " + show_date expiry)
              ("Presented " + (show_date presentation + " — after expiry")) material
              (("presentation_date", text (show_date presentation))
                ∷ ("expiry_date", text (show_date expiry))
                ∷ ("days_overdue", days (sub_ℕ presentation expiry))
                ∷ []))
      else []
