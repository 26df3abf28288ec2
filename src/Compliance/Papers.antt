-- ===== src/Compliance/Papers.antt =====
-- rules/checks.py: the checks of the invoice, the bill of lading, the insurance and Art. 31.
use trade_sentry.Prelude.{
  String, Bool, true, false, ◌&&◌, not, Option, none, some, List, [], ◌++◌, ltb, or_else,
}
use trade_sentry.Prelude.Decimal.{Decimal, mul, lt}
use trade_sentry.Prelude.Text.{eq_codes, is_text}
use trade_sentry.Contracts.Fields.{
  Date, CommercialInvoiceFields, BillOfLadingFields, InsuranceCertificateFields,
}
use trade_sentry.Compliance.Model.{
  LcRequirements, Rule, art18, art20, art28, art31, material, ComplianceFinding,
  minimum_coverage_ratio, is_true,
}
use trade_sentry.Compliance.Finding.{
  Host, plain_finding, normalize, text, amount, flag, day, at_least, no_later, one_if,
}
use trade_sentry.Compliance.Consistency.{check_string_consistency}
use trade_sentry.Compliance.Amounts.{check_credit_amount_tolerance}

-- `flag is False`
abbrev pub is_false : Option Bool → Bool
is_false (some false) = true
is_false _ = false

-- `bl.on_board_date or bl.bl_date`
abbrev pub shipment_date_of : BillOfLadingFields → Option Date
shipment_date_of bl = or_else bl.on_board_date bl.bl_date

module _ (h : Host) where
  -- the currencies are both given, and differ after normalisation
  unfoldable pub check_currency :
      (expected actual : Option String) → (document_id : String) → Rule → List ComplianceFinding
  check_currency (some e) (some a) document_id r =
      one_if (is_text e && is_text a && not (eq_codes (normalize h e) (normalize h a)))
        (plain_finding h r document_id "currency" (text e) (text a) material none)
  check_currency _ _ document_id r = []

  -- the date is later than its limit, both given
  unfoldable pub check_not_later :
      (limit actual : Option Date)
      → (document_id field_name : String) → Rule
      → List ComplianceFinding
  check_not_later (some l) (some a) document_id field_name r =
      one_if (ltb l a) (plain_finding h r document_id field_name (no_later l) (day a) material none)
  check_not_later _ _ document_id field_name r = []

  unfoldable pub check_invoice_amount :
      (credit invoice drawing : Option Decimal)
      → (about_flag : Bool) → (document_id : String) → List ComplianceFinding
  check_invoice_amount (some c) (some i) none about document_id =
      check_credit_amount_tolerance h c i i about document_id none
  check_invoice_amount (some c) (some i) (some d) about document_id =
      check_credit_amount_tolerance h c i d about document_id none
  check_invoice_amount _ _ _ about document_id = []

  unfoldable pub check_commercial_invoice :
      LcRequirements
      → CommercialInvoiceFields
      → (drawing_amount : Option Decimal) → (document_id : String) → List ComplianceFinding
  check_commercial_invoice lc invoice drawing_amount document_id =
      check_string_consistency h lc.beneficiary invoice.seller document_id "seller" art18 none
      ++ (check_currency lc.currency invoice.currency document_id art18
          ++ (check_string_consistency h lc.goods_description invoice.goods_description document_id
                "goods_description" art18 none
              ++ check_invoice_amount lc.credit_amount invoice.invoice_amount drawing_amount
                  lc.about_flag document_id))

  unfoldable pub check_bill_of_lading :
      LcRequirements → BillOfLadingFields → (document_id : String) → List ComplianceFinding
  check_bill_of_lading lc bl document_id =
      one_if (is_false bl.on_board_notation) (
        plain_finding h art20 document_id "on_board_notation" (flag true) (flag false) material
          none)
      ++ (check_string_consistency h lc.loading_port bl.loading_port document_id "loading_port"
            art20 none
          ++ (check_string_consistency h lc.discharge_port bl.discharge_port document_id
                "discharge_port" art20 none
              ++ (check_not_later lc.latest_shipment_date (shipment_date_of bl) document_id
                    "on_board_date" art20
                  ++ one_if (is_false bl.carrier_or_master_signature) (
                      plain_finding h art20 document_id "carrier_or_master_signature" (flag true)
                        (flag false) material none))))

  unfoldable pub check_coverage :
      (invoice_amount insured_amount : Option Decimal)
      → (document_id : String) → List ComplianceFinding
  check_coverage (some i) (some insured) document_id =
      let minimum = mul i minimum_coverage_ratio in
      one_if (lt insured minimum) (
        plain_finding h art28 document_id "insured_amount" (at_least minimum) (amount insured)
          material none)
  check_coverage _ _ document_id = []

  unfoldable pub check_insured_shipment :
      Option BillOfLadingFields
      → InsuranceCertificateFields
      → (document_id : String) → List ComplianceFinding
  check_insured_shipment none insurance document_id = []
  check_insured_shipment (some bl) insurance document_id =
      check_not_later (shipment_date_of bl) insurance.effective_date document_id "effective_date"
        art28
      ++ (check_string_consistency h bl.goods_description insurance.goods_description document_id
            "goods_description" art28 none
          ++ (check_string_consistency h bl.vessel_name insurance.vessel_name document_id
                "vessel_name" art28 none
              ++ (check_string_consistency h bl.loading_port insurance.loading_port document_id
                    "loading_port" art28 none
                  ++ check_string_consistency h bl.discharge_port insurance.discharge_port
                      document_id "discharge_port" art28 none)))

  unfoldable pub check_insurance :
      LcRequirements
      → CommercialInvoiceFields
      → InsuranceCertificateFields
      → Option BillOfLadingFields
      → (document_id : String) → List ComplianceFinding
  check_insurance lc invoice insurance bl document_id =
      check_coverage invoice.invoice_amount insurance.insured_amount document_id
      ++ (check_currency lc.currency insurance.currency document_id art28
          ++ check_insured_shipment bl insurance document_id)

  unfoldable pub check_partial_shipments :
      LcRequirements → BillOfLadingFields → (document_id : String) → List ComplianceFinding
  check_partial_shipments lc bl document_id =
      one_if (not lc.partial_shipments_allowed && is_true bl.partial_shipment_indicated) (
        plain_finding h art31 document_id "partial_shipment_indicated" (flag false) (flag true)
          material none)
