-- ===== src/Dna/Papers.antt =====
-- dna/builder.py: the documents and raw values of `build_transaction_dna`, and their sources.
use Prim.Native.String.{◌++◌ as ◌+◌}
use trade_sentry.Prelude.{
  String, Bool, false, Option, none, some, List, [], ◌∷◌, ◌++◌, map, find, is_some, or_else,
  if◌then◌else◌,
}
use trade_sentry.Prelude.Decimal.{Decimal}
use trade_sentry.Prelude.Text.{is_text}
use trade_sentry.Contracts.Documents.{
  DocumentType, letter_of_credit, commercial_invoice, bill_of_lading, packing_list, type_beq,
}
use trade_sentry.Contracts.Fields.{
  Date, LetterOfCreditFields, CommercialInvoiceFields, BillOfLadingFields, PackingListFields,
}
use trade_sentry.Contracts.Extraction.{
  ExtractionResult, ExtractedFields, lc_fields, invoice_fields, bl_fields, packing_fields,
}

-- `_extraction`
abbrev pub extraction_of : DocumentType → List ExtractionResult → Option ExtractionResult
extraction_of t = find (λ e. type_beq e.document_type t)

-- `_typed_fields`
abbrev lc_of : ExtractedFields → Option LetterOfCreditFields
lc_of (lc_fields f) = some f
lc_of _ = none

abbrev invoice_of : ExtractedFields → Option CommercialInvoiceFields
invoice_of (invoice_fields f) = some f
invoice_of _ = none

abbrev bl_of : ExtractedFields → Option BillOfLadingFields
bl_of (bl_fields f) = some f
bl_of _ = none

abbrev packing_of : ExtractedFields → Option PackingListFields
packing_of (packing_fields f) = some f
packing_of _ = none

-- `f(x) if x is not None else None`
abbrev pub then_get {ℓ κ} : {A : Type ℓ} {B : Type κ} → (A → Option B) → Option A → Option B
then_get f none = none
then_get f (some a) = f a

abbrev pub typed {ℓ} :
    {A : Type ℓ} → (ExtractedFields → Option A) → Option ExtractionResult → Option A
typed f none = none
typed f (some e) = f e.fields

-- the truth value of an optional text
abbrev pub is_given : Option String → Bool
is_given none = false
is_given (some s) = is_text s

-- `a if a else b`, for an invoice's or credit's text and the bill of lading's
abbrev pub prefer : Option String → Option String → Option String
prefer a b = if is_given a then a else b

-- the documents of a case, each with its extraction and, where they have the expected class, its fields
pub record Papers : Type 0 where
  pub lc_extraction : Option ExtractionResult
  pub invoice_extraction : Option ExtractionResult
  pub bl_extraction : Option ExtractionResult
  pub packing_extraction : Option ExtractionResult
  pub lc : Option LetterOfCreditFields
  pub invoice : Option CommercialInvoiceFields
  pub bl : Option BillOfLadingFields
  pub packing : Option PackingListFields

unfoldable pub papers_of : List ExtractionResult → Papers
papers_of es =
    let lc_extraction = extraction_of letter_of_credit es in
    let invoice_extraction = extraction_of commercial_invoice es in
    let bl_extraction = extraction_of bill_of_lading es in
    let packing_extraction = extraction_of packing_list es in
    record {
      lc_extraction = lc_extraction;
      invoice_extraction = invoice_extraction;
      bl_extraction = bl_extraction;
      packing_extraction = packing_extraction;
      lc = typed lc_of lc_extraction;
      invoice = typed invoice_of invoice_extraction;
      bl = typed bl_of bl_extraction;
      packing = typed packing_of packing_extraction;
    }

-- The `raw_*` values that come from one of two documents.
pub record RawFields : Type 0 where
  pub exporter : Option String
  pub importer : Option String
  pub loading_port : Option String
  pub discharge_port : Option String
  pub commodity : Option String
  pub hs_code : Option String
  pub quantity : Option Decimal
  pub unit : Option String
  pub shipment_date : Option Date

unfoldable pub raw_fields : Papers → RawFields
raw_fields p = record {
  exporter = prefer (then_get (λ i. i.seller) p.invoice) (then_get (λ b. b.shipper) p.bl);
  importer = prefer (then_get (λ i. i.buyer) p.invoice) (then_get (λ b. b.consignee) p.bl);
  loading_port = prefer (then_get (λ l. l.loading_port) p.lc) (then_get (λ b. b.loading_port) p.bl);
  discharge_port =
      prefer (then_get (λ l. l.discharge_port) p.lc) (then_get (λ b. b.discharge_port) p.bl);
  commodity =
      prefer (then_get (λ i. i.goods_description) p.invoice)
        (then_get (λ b. b.goods_description) p.bl);
  hs_code = prefer (then_get (λ i. i.hs_code) p.invoice) (then_get (λ b. b.hs_code) p.bl);
  quantity = or_else (then_get (λ i. i.quantity) p.invoice) (then_get (λ b. b.quantity) p.bl);
  unit = prefer (then_get (λ i. i.unit) p.invoice) (then_get (λ b. b.unit) p.bl);
  shipment_date = then_get (λ b. or_else b.on_board_date b.bl_date) p.bl;
}

-- `f(raw) if raw else None`
abbrev pub normalize_given : (String → Option String) → Option String → Option String
normalize_given f none = none
normalize_given f (some s) = if is_text s then f s else none

abbrev pub value_or_empty : Option String → String
value_or_empty none = ""
value_or_empty (some s) = s

-- `normalized`, with the date as a day number
pub record Normalized : Type 0 where
  pub exporter : Option String
  pub importer : Option String
  pub bl_number : Option String
  pub vessel : Option String
  pub voyage : Option String
  pub loading_port : Option String
  pub discharge_port : Option String
  pub shipment_date : Option Date

-- the texts that the fingerprint is the digest of, without anything between them
unfoldable pub fingerprint_text :
    (bl_number vessel voyage loading_port discharge_port shipment_date exporter : Option String)
    → String
fingerprint_text bl_number vessel voyage loading_port discharge_port shipment_date exporter =
    value_or_empty bl_number
    + (value_or_empty vessel
        + (value_or_empty voyage
            + (value_or_empty loading_port
                + (value_or_empty discharge_port
                    + (value_or_empty shipment_date + value_or_empty exporter)))))

-- `_source`
abbrev pub source : List String → Option ExtractionResult → List (String × String)
source fields none = []
source fields (some e) = map (λ f. (f, e.document_id)) fields

-- the document that a value of two documents is taken from
abbrev pub chosen :
    Bool → Option ExtractionResult → Option ExtractionResult → Option ExtractionResult
chosen first a b = if first then a else b

-- the calls of `_source`, each the fields and the document
unfoldable pub source_groups : Papers → List (List String × Option ExtractionResult)
source_groups p =
    (
      "raw_exporter" ∷ "exporter_normalized" ∷ [],
      chosen (is_given (then_get (λ i. i.seller) p.invoice)) p.invoice_extraction p.bl_extraction,
    )
    ∷ (
      "raw_importer" ∷ "importer_normalized" ∷ [],
      chosen (is_given (then_get (λ i. i.buyer) p.invoice)) p.invoice_extraction p.bl_extraction,
    )
    ∷ (
      "raw_bl_number" ∷ "bl_number_normalized" ∷ "raw_vessel_name" ∷ "vessel_normalized"
          ∷ "imo_number" ∷ "raw_voyage_number" ∷ "voyage_normalized" ∷ "raw_shipment_date"
          ∷ "shipment_date_iso" ∷ [],
      p.bl_extraction,
    )
    ∷ (
      "raw_loading_port" ∷ "loading_port_unlocode" ∷ [],
      chosen (is_given (then_get (λ l. l.loading_port) p.lc)) p.lc_extraction p.bl_extraction,
    )
    ∷ (
      "raw_discharge_port" ∷ "discharge_port_unlocode" ∷ [],
      chosen (is_given (then_get (λ l. l.discharge_port) p.lc)) p.lc_extraction p.bl_extraction,
    )
    ∷ (
      "raw_commodity" ∷ "commodity_normalized" ∷ [],
      chosen (is_given (then_get (λ i. i.goods_description) p.invoice)) p.invoice_extraction
          p.bl_extraction,
    )
    ∷ (
      "raw_hs_code" ∷ "hs_code_canonical" ∷ [],
      chosen (is_given (then_get (λ i. i.hs_code) p.invoice)) p.invoice_extraction p.bl_extraction,
    )
    ∷ (
      "raw_quantity" ∷ "quantity_canonical" ∷ [],
      chosen (is_some (then_get (λ i. i.quantity) p.invoice)) p.invoice_extraction p.bl_extraction,
    )
    ∷ (
      "raw_quantity_unit" ∷ "unit_canonical" ∷ [],
      chosen (is_given (then_get (λ i. i.unit) p.invoice)) p.invoice_extraction p.bl_extraction,
    )
    ∷ (
      "raw_invoice_value" ∷ "raw_currency" ∷ "invoice_value_usd" ∷ "unit_value_usd_per_unit"
          ∷ "raw_invoice_number" ∷ [],
      p.invoice_extraction,
    )
    ∷ ("raw_lc_number" ∷ [], p.lc_extraction)
    ∷ []

abbrev pub sources_of : List (List String × Option ExtractionResult) → List (String × String)
sources_of [] = []
sources_of ((fields, extraction) ∷ rest) = source fields extraction ++ sources_of rest

-- `sources` before the entries without a value are dropped
unfoldable pub all_sources : Papers → List (String × String)
all_sources p = sources_of (source_groups p)
