-- ===== src/Prototype/Invoice.antt =====
-- rules/ucp600.py: `check_commercial_invoice`.
use Prim.Native.String.{◌++◌ as ◌+◌}
use trade_sentry.Prelude.{
  ℕ, ◌*◌, String, Bool, not, List, [], ◌∷◌, ◌++◌, ltb, string_eq, ◌==◌, if◌then◌else◌,
}
use trade_sentry.Prelude.Decimal.{Decimal}
use trade_sentry.Prototype.{
  Severity, material, review, advisory, text, fraction, Finding, PrototypeHost, found, when,
}

module _ (h : PrototypeHost) where
  open h use {lower, upper, percent, full, token_sort_ratio}

  -- `fuzz.token_sort_ratio(a.lower(), b.lower()) / 100`
  abbrev pub similarity : String → String → ℕ
  similarity a b = token_sort_ratio (lower a) (lower b)

  -- `similarity < hundredths / 100`
  abbrev pub is_below : (similarity hundredths : ℕ) → Bool
  is_below s hundredths = ltb (s * 100) (hundredths * full)

  abbrev party_severity : ℕ → Severity
  party_severity s = if is_below s 70 then material else review

  unfoldable pub check_commercial_invoice :
      (lc_beneficiary lc_applicant lc_currency lc_goods_description : String)
      (invoice_seller invoice_buyer invoice_currency invoice_goods_description : String)
      (invoice_amount credit_amount : Decimal) (about_flag : Bool) (fuzzy_threshold : ℕ)
      → List Finding
  check_commercial_invoice beneficiary applicant lc_currency lc_goods seller buyer currency goods
        invoice_amount credit_amount about_flag threshold =
      let sellers = similarity seller beneficiary in
      let buyers = similarity buyer applicant in
      let descriptions = similarity goods lc_goods in
      when (is_below sellers threshold) (
        found "UCP600-ART18A-SELLER-MISMATCH" "UCP 600 Art. 18(a)(i)" "invoice_seller"
          ("Invoice issued by beneficiary: " + beneficiary)
          ("Invoice seller: " + (seller + (" (similarity: " + (percent sellers + ")"))))
          (party_severity sellers)
          (("lc_beneficiary", text beneficiary)
            ∷ ("invoice_seller", text seller)
            ∷ ("similarity", fraction sellers)
            ∷ []))
      ++ (when (is_below buyers threshold) (
            found "UCP600-ART18A-BUYER-MISMATCH" "UCP 600 Art. 18(a)(ii)" "invoice_buyer"
              ("Made out in name of applicant: " + applicant)
              ("Invoice buyer: " + (buyer + (" (similarity: " + (percent buyers + ")"))))
              (party_severity buyers)
              (("lc_applicant", text applicant)
                ∷ ("invoice_buyer", text buyer)
                ∷ ("similarity", fraction buyers)
                ∷ []))
          ++ (when (not (upper currency == upper lc_currency)) (
                found "UCP600-ART18A-CURRENCY-MISMATCH" "UCP 600 Art. 18(a)(iv)" "invoice_currency"
                  ("Currency: " + lc_currency) ("Currency: " + currency) material
                  (("lc_currency", text lc_currency) ∷ ("invoice_currency", text currency) ∷ []))
              ++ (if is_below descriptions 50
                  then found "UCP600-ART18C-GOODS-CONFLICT" "UCP 600 Art. 18(c)" "goods_description"
                      ("Consistent with LC: " + lc_goods) ("Invoice states: " + goods) material
                      (("lc_description", text lc_goods)
                        ∷ ("invoice_description", text goods)
                        ∷ ("similarity", fraction descriptions)
                        ∷ [])
                    ∷ []
                  else when (is_below descriptions 75) (
                      found "UCP600-ART18C-GOODS-VARIATION" "UCP 600 Art. 18(c)" "goods_description"
                        ("Consistent with LC: " + lc_goods) ("Invoice states: " + goods) advisory
                        (("similarity", fraction descriptions)
                          ∷ ("note", text "Minor variation — may be acceptable specificity")
                          ∷ [])))))
