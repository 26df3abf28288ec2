-- ===== src/Compliance/CrossDocument.antt =====
-- rules/engine.py: `_page`, `_packing_description` and `_cross_document_checks`.
use trade_sentry.Prelude.{
  ℕ, String, ◌&&◌, Option, none, some, List, [], ◌∷◌, ◌++◌, if◌then◌else◌, find, ◌==◌, string_eq,
}
use Prim.Native.String.{◌++◌ as ◌+◌}
use trade_sentry.Prelude.Text.{is_text}
use trade_sentry.Contracts.Documents.{
  DocumentType, commercial_invoice, bill_of_lading, packing_list, type_beq, is_extracted,
}
use trade_sentry.Contracts.Fields.{
  CommercialInvoiceFields, BillOfLadingFields, PackingListFields, PackingLineItem,
}
use trade_sentry.Compliance.Model.{
  ComplianceFinding, ComplianceCaseFacts, PresentedDocument, art14d,
}
use trade_sentry.Compliance.Finding.{Host}
use trade_sentry.Compliance.Consistency.{check_string_consistency, check_numeric_consistency}

abbrev first_page : Option (List ℕ) → Option ℕ
first_page (some (p ∷ ps)) = some p
first_page _ = none

-- `page_refs.get(field_name, [])`
abbrev pages_for : String → List (String × List ℕ) → Option (List ℕ)
pages_for field_name [] = none
pages_for field_name ((k, v) ∷ m) = if k == field_name then some v else pages_for field_name m

abbrev page_in : String → Option PresentedDocument → Option ℕ
page_in field_name none = none
page_in field_name (some d) = first_page (pages_for field_name d.page_refs)

unfoldable pub page : ComplianceCaseFacts → DocumentType → String → Option ℕ
page facts t field_name =
    page_in field_name
      (find (λ d. type_beq d.document_type t && is_extracted d.status) facts.presented_documents)

abbrev given_text : Option String → List String
given_text none = []
given_text (some d) = if is_text d then d ∷ [] else []

-- the descriptions that are not empty
abbrev descriptions : List PackingLineItem → List String
descriptions [] = []
descriptions (item ∷ items) = given_text item.description ++ descriptions items

-- `"; ".join(descriptions) or None`
abbrev join : String → List String → String
join d [] = d
join d (e ∷ es) = d + ("; " + join e es)

abbrev joined : List String → Option String
joined [] = none
joined (d ∷ ds) = some (join d ds)

unfoldable pub packing_description : Option PackingListFields → Option String
packing_description none = none
packing_description (some p) = joined (descriptions p.line_items)

module _ (h : Host) (facts : ComplianceCaseFacts) where
  open facts use {lc}

  -- `_cross_document_checks`, one block of it for each condition
  unfoldable pub buyer_checks : Option CommercialInvoiceFields → List ComplianceFinding
  buyer_checks none = []
  buyer_checks (some invoice) =
      check_string_consistency h lc.applicant invoice.buyer facts.invoice_document_id "buyer" art14d
        (page facts commercial_invoice "buyer")

  unfoldable pub party_checks : Option BillOfLadingFields → List ComplianceFinding
  party_checks none = []
  party_checks (some bl) =
      check_string_consistency h lc.beneficiary bl.shipper facts.bill_of_lading_document_id
        "shipper" art14d (page facts bill_of_lading "shipper")
      ++ check_string_consistency h lc.applicant bl.consignee facts.bill_of_lading_document_id
          "consignee" art14d (page facts bill_of_lading "consignee")

  unfoldable pub cargo_checks :
      Option CommercialInvoiceFields → Option BillOfLadingFields → List ComplianceFinding
  cargo_checks (some invoice) (some bl) =
      check_string_consistency h invoice.goods_description bl.goods_description
        facts.bill_of_lading_document_id "goods_description" art14d
        (page facts bill_of_lading "goods_description")
      ++ (check_numeric_consistency h invoice.quantity bl.quantity facts.bill_of_lading_document_id
            "quantity" (page facts bill_of_lading "quantity")
          ++ check_string_consistency h invoice.vessel_name bl.vessel_name
              facts.bill_of_lading_document_id "vessel_name" art14d
              (page facts bill_of_lading "vessel_name"))
  cargo_checks _ _ = []

  unfoldable pub packing_checks :
      Option CommercialInvoiceFields → Option PackingListFields → List ComplianceFinding
  packing_checks (some invoice) (some packing) =
      check_string_consistency h invoice.goods_description (packing_description facts.packing_list)
        facts.packing_list_document_id "goods_description" art14d
        (page facts packing_list "line_items")
      ++ check_numeric_consistency h invoice.quantity packing.total_quantity
          facts.packing_list_document_id "total_quantity" (page facts packing_list "total_quantity")
  packing_checks _ _ = []

  unfoldable pub cross_document_checks : List ComplianceFinding
  cross_document_checks =
      buyer_checks facts.invoice
      ++ (party_checks facts.bill_of_lading
          ++ (cargo_checks facts.invoice facts.bill_of_lading
              ++ packing_checks facts.invoice facts.packing_list))
