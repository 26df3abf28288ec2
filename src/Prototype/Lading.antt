-- ===== src/Prototype/Lading.antt =====
-- rules/ucp600.py: `check_bill_of_lading` and `check_insurance`.
use Prim.Native.String.{◌++◌ as ◌+◌}
use trade_sentry.Prelude.{
  ℕ, String, Bool, false, ◌&&◌, not, Option, none, some, List, [], ◌∷◌, ◌++◌, ltb, string_eq, ◌==◌,
}
use trade_sentry.Prelude.Int.{sub_ℕ}
use trade_sentry.Prelude.Text.{is_text}
use trade_sentry.Prelude.Decimal.{Decimal, mul, sub, lt}
use trade_sentry.Contracts.Fields.{Date}
use trade_sentry.Fraud.Common.{is_within}
use trade_sentry.Prototype.{
  material, review, text, flag, days, fraction, Finding, PrototypeHost, found, when,
}
use trade_sentry.Prototype.Invoice.{similarity, is_below}

module _ (h : PrototypeHost) where
  open h use {lower, upper, str, show_date, factor_percent}

  unfoldable pub check_bill_of_lading :
      (lc_loading_port lc_discharge_port : String) (lc_latest_shipment_date : Date)
      (bl_loading_port bl_discharge_port : String) (bl_on_board_notation : Bool)
      (bl_on_board_date : Date) (bl_carrier_signature : Bool) (bl_shipper lc_beneficiary : String)
      (fuzzy_threshold : ℕ)
      → List Finding
  check_bill_of_lading lc_loading lc_discharge latest bl_loading bl_discharge on_board on_board_date
        signature shipper beneficiary threshold =
      let loading = similarity h bl_loading lc_loading in
      let discharge = similarity h bl_discharge lc_discharge in
      when (not on_board) (
        found "UCP600-ART20A-ONBOARD-MISSING" "UCP 600 Art. 20(a)(ii)" "on_board_notation"
          "On-board notation present on B/L" "No on-board notation found" material
          (("on_board_notation", flag false) ∷ []))
      ++ (when (not signature) (
            found "UCP600-ART20A-CARRIER-SIG-MISSING" "UCP 600 Art. 20(a)(i)" "carrier_signature"
              "Carrier/master/agent signature present" "No carrier signature found" material
              (("carrier_signature", flag false) ∷ []))
          ++ (when (is_below h loading threshold) (
                found "UCP600-ART20A-LOADING-PORT-MISMATCH" "UCP 600 Art. 20(a)(iii)" "loading_port"
                  ("Port of loading: " + lc_loading) ("B/L states: " + bl_loading) material
                  (("lc_port", text lc_loading)
                    ∷ ("bl_port", text bl_loading)
                    ∷ ("similarity", fraction loading)
                    ∷ []))
              ++ (when (is_below h discharge threshold) (
                    found "UCP600-ART20A-DISCHARGE-PORT-MISMATCH" "UCP 600 Art. 20(a)(iv)"
                      "discharge_port" ("Port of discharge: " + lc_discharge)
                      ("B/L states: " + bl_discharge) material
                      (("lc_port", text lc_discharge)
                        ∷ ("bl_port", text bl_discharge)
                        ∷ ("similarity", fraction discharge)
                        ∷ []))
                  ++ when (ltb latest on_board_date) (
                      found "UCP600-ART20A-LATE-SHIPMENT" "UCP 600 Art. 20(a) / Art. 14(c)"
                        "on_board_date" ("Shipped on or before " + show_date latest)
                        ("On-board date: " + show_date on_board_date) material
                        (("on_board_date", text (show_date on_board_date))
                          ∷ ("latest_shipment_date", text (show_date latest))
                          ∷ ("days_late", days (sub_ℕ on_board_date latest))
                          ∷ [])))))

  -- a coverage type that the credit requires and the insurance does not name
  abbrev pub is_uncovered : Option String → (coverage : String) → Bool
  is_uncovered none coverage = false
  is_uncovered (some required) coverage =
      is_text required && not (is_within (lower required) (lower coverage))

  abbrev pub required_text : Option String → String
  required_text none = "None"
  required_text (some s) = s

  unfoldable pub check_insurance :
      (lc_currency : String) (invoice_amount : Decimal) (invoice_incoterms : String)
      (insured_amount : Decimal) (insurance_currency : String)
      (insurance_effective_date bl_on_board_date : Date) (insurance_coverage_type : String)
      (lc_required_coverage_type : Option String) (cif_percentage : Decimal)
      → List Finding
  check_insurance lc_currency invoice_amount incoterms insured currency effective on_board coverage
        required percentage =
      let minimum = mul invoice_amount percentage in
      when (lt insured minimum) (
        found "UCP600-ART28F-INSURANCE-AMOUNT" "UCP 600 Art. 28(f)(i)" "insured_amount"
          (">= "
            + (str minimum
                + (" ("
                    + (factor_percent percentage
                        + (" of CIF value " + (str invoice_amount + ")"))))))
          (str insured) material
          (("invoice_amount", text (str invoice_amount))
            ∷ ("minimum_coverage", text (str minimum))
            ∷ ("actual_coverage", text (str insured))
            ∷ ("shortfall", text (str (sub minimum insured)))
            ∷ ("percentage", text (factor_percent percentage))
            ∷ []))
      ++ (when (not (upper currency == upper lc_currency)) (
            found "UCP600-ART28F-INSURANCE-CURRENCY" "UCP 600 Art. 28(f)(ii)" "insurance_currency"
              ("Currency: " + lc_currency) ("Currency: " + currency) material
              (("lc_currency", text lc_currency) ∷ ("insurance_currency", text currency) ∷ []))
          ++ (when (ltb on_board effective) (
                found "UCP600-ART28E-INSURANCE-DATE" "UCP 600 Art. 28(e)" "insurance_effective_date"
                  ("Effective on or before on-board date " + show_date on_board)
                  ("Insurance effective: " + show_date effective) material
                  (("effective_date", text (show_date effective))
                    ∷ ("on_board_date", text (show_date on_board))
                    ∷ ("days_late", days (sub_ℕ effective on_board))
                    ∷ []))
              ++ when (is_uncovered required coverage) (
                  found "UCP600-ART28C-COVERAGE-TYPE" "UCP 600 Art. 28(c)" "coverage_type"
                    ("Coverage type: " + required_text required) ("Coverage type: " + coverage)
                    review
                    (("required", text (required_text required))
                      ∷ ("actual", text coverage)
                      ∷ []))))
