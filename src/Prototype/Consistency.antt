-- ===== src/Prototype/Consistency.antt =====
-- rules/ucp600.py: `check_cross_document_consistency`.
use Prim.Native.String.{◌++◌ as ◌+◌}
use trade_sentry.Prelude.{ℕ, String, List, [], ◌∷◌, ◌++◌, leb, if◌then◌else◌}
use trade_sentry.Prototype.{
  Severity, material, review, advisory, text, fraction, Finding, PrototypeHost, found,
}
use trade_sentry.Prototype.Invoice.{similarity, is_below}

module _ (h : PrototypeHost) (material_threshold advisory_threshold : ℕ) where
  open h use {upper, percent, full}

  abbrev pub graded : ℕ → Severity
  graded s =
      if is_below h s material_threshold
      then material
      else if is_below h s advisory_threshold
      then review
      else advisory

  abbrev pub pair_findings : (field_name doc_a value_a doc_b value_b : String) → List Finding
  pair_findings field_name doc_a value_a doc_b value_b =
      let s = similarity h value_a value_b in
      if leb full s
      then []
      else found ("UCP600-ART14D-" + (upper field_name + "-INCONSISTENCY")) "UCP 600 Art. 14(d)"
          field_name (doc_a + (": " + value_a))
          (doc_b + (": " + (value_b + (" (similarity: " + (percent s + ")"))))) (graded s)
          (("field", text field_name)
            ∷ ("doc_a", text doc_a)
            ∷ ("value_a", text value_a)
            ∷ ("doc_b", text doc_b)
            ∷ ("value_b", text value_b)
            ∷ ("similarity", fraction s)
            ∷ (
              "note",
              text (if is_below h s advisory_threshold then "Possible conflict" else "OCR variant"),
            )
            ∷ [])
        ∷ []

  -- one document against each later one
  abbrev pub against_later : (field_name doc value : String) → List (String × String) → List Finding
  against_later field_name doc value [] = []
  against_later field_name doc value ((d, v) ∷ rest) =
      pair_findings field_name doc value d v ++ against_later field_name doc value rest

  abbrev pub field_findings : (field_name : String) → List (String × String) → List Finding
  field_findings field_name [] = []
  field_findings field_name ((d, v) ∷ rest) =
      against_later field_name d v rest ++ field_findings field_name rest

  unfoldable pub check_cross_document_consistency :
      List (String × List (String × String)) → List Finding
  check_cross_document_consistency [] = []
  check_cross_document_consistency ((field_name, values) ∷ rest) =
      field_findings field_name values ++ check_cross_document_consistency rest
