-- ===== src/Dna/Builder.antt =====
-- dna/builder.py: `build_transaction_dna`.
use trade_sentry.Prelude.{
  ℕ, zero, suc, String, Bool, Option, none, some, List, [], ◌∷◌, ◌++◌, if◌then◌else◌,
}
use trade_sentry.Prelude.Decimal.{Decimal, is_nonzero}
use trade_sentry.Prelude.Sort.{sorted}
use trade_sentry.Prelude.Text.{is_text}
use trade_sentry.Contracts.Fields.{
  Date, LetterOfCreditFields, CommercialInvoiceFields, BillOfLadingFields, PackingLineItem,
}
use trade_sentry.Contracts.Extraction.{ExtractionResult}
use trade_sentry.Compliance.Engine.{le_keys}
use trade_sentry.Dna.{ConflictRecord}
use trade_sentry.Dna.Normalization.{
  DnaHost, normalize_entity_name, normalize_free_text, normalize_port, normalize_identifier,
  normalize_quantity, convert_currency_to_usd,
}
use trade_sentry.Dna.Conflicts.{QuantityEntry, string_conflict, quantity_conflicts}
use trade_sentry.Dna.Papers.{
  Papers, RawFields, Normalized, then_get, is_given, normalize_given, fingerprint_text,
}

-- `text[:n]`
abbrev pub first_chars : ℕ → String → String
first_chars zero s = String.[]
first_chars (suc n) String.[] = String.[]
first_chars (suc n) (String.◌∷◌ c s) = String.◌∷◌ c (first_chars n s)

-- the conflicts that are not `None`
abbrev pub listed : Option ConflictRecord → List ConflictRecord → List ConflictRecord
listed none cs = cs
listed (some c) cs = c ∷ cs

abbrev pub id_or : String → Option ExtractionResult → String
id_or default none = default
id_or default (some e) = e.document_id

-- `next((item.unit for item in packing.line_items if item.unit), None)`
abbrev pub first_unit : List PackingLineItem → Option String
first_unit [] = none
first_unit (i ∷ is) = if is_given i.unit then i.unit else first_unit is

-- the key `(field_name, document_a_id, document_b_id)`
abbrev pub conflict_order : ConflictRecord → ConflictRecord → Bool
conflict_order a b =
    le_keys (a.field_name ∷ a.document_a_id ∷ a.document_b_id ∷ [])
      (b.field_name ∷ b.document_a_id ∷ b.document_b_id ∷ [])

-- the quantities that are compared, in the code's order
unfoldable pub quantity_entries : Papers → List QuantityEntry
quantity_entries p =
    record {
      document_id = id_or "invoice" p.invoice_extraction;
      value = then_get (λ i. i.quantity) p.invoice;
      unit = then_get (λ i. i.unit) p.invoice;
    }
    ∷ record {
      document_id = id_or "bill_of_lading" p.bl_extraction;
      value = then_get (λ b. b.quantity) p.bl;
      unit = then_get (λ b. b.unit) p.bl;
    }
    ∷ record {
      document_id = id_or "packing_list" p.packing_extraction;
      value = then_get (λ k. k.total_quantity) p.packing;
      unit = then_get (λ k. first_unit k.line_items) p.packing;
    }
    ∷ []

abbrev pub normalization_methods : List (String × String)
normalization_methods =
    ("exporter_normalized", "normalize_entity_name:v1")
    ∷ ("importer_normalized", "normalize_entity_name:v1")
    ∷ ("bl_number_normalized", "normalize_identifier:v1")
    ∷ ("vessel_normalized", "normalize_free_text:v1")
    ∷ ("voyage_normalized", "normalize_identifier:v1")
    ∷ ("loading_port_unlocode", "bundled_unlocode_aliases:v1")
    ∷ ("discharge_port_unlocode", "bundled_unlocode_aliases:v1")
    ∷ ("shipment_date_iso", "normalize_date:v1")
    ∷ ("commodity_normalized", "normalize_free_text:v1")
    ∷ ("hs_code_canonical", "normalize_hs_code:v1")
    ∷ ("quantity_canonical", "normalize_quantity:v1")
    ∷ ("invoice_value_usd", "bundled_currency_rate:USD-only:v1")
    ∷ []

module _ (h : DnaHost) where
  open h use {isoformat, quotient, sha256}

  unfoldable pub normalized_of : Papers → RawFields → Normalized
  normalized_of p raw = record {
    exporter = normalize_given (λ s. some (normalize_entity_name h s)) raw.exporter;
    importer = normalize_given (λ s. some (normalize_entity_name h s)) raw.importer;
    bl_number =
        normalize_given (λ s. some (normalize_identifier h s)) (then_get (λ b. b.bl_number) p.bl);
    vessel =
        normalize_given (λ s. some (normalize_free_text h s)) (then_get (λ b. b.vessel_name) p.bl);
    voyage =
        normalize_given (λ s. some (normalize_identifier h s))
          (then_get (λ b. b.voyage_number) p.bl);
    loading_port = normalize_given (normalize_port h) raw.loading_port;
    discharge_port = normalize_given (normalize_port h) raw.discharge_port;
    shipment_date = raw.shipment_date;
  }

  -- `date.isoformat() if date else None`
  abbrev pub iso : Option Date → Option String
  iso none = none
  iso (some d) = some (isoformat d)

  unfoldable pub fingerprint_of : Normalized → String
  fingerprint_of n = sha256 (
      fingerprint_text n.bl_number n.vessel n.voyage n.loading_port n.discharge_port
        (iso n.shipment_date) n.exporter)

  -- `quantity_canonical` and `unit_canonical`
  abbrev pub canonical_quantity : Option Decimal → Option String → Option (Decimal × String)
  canonical_quantity none unit = none
  canonical_quantity (some v) none = none
  canonical_quantity (some v) (some u) = if is_text u then normalize_quantity h v u else none

  abbrev pub value_in_usd : Option Decimal → Option String → Option Decimal
  value_in_usd none currency = none
  value_in_usd (some v) none = none
  value_in_usd (some v) (some c) = if is_text c then convert_currency_to_usd h v c else none

  abbrev pub unit_value : Option Decimal → Option Decimal → Option Decimal
  unit_value none quantity = none
  unit_value (some v) none = none
  unit_value (some v) (some q) = if is_nonzero q then some (quotient v q) else none

  -- the exporter's and the vessel's conflict, with both documents and their fields at hand
  unfoldable pub invoice_conflicts :
      Option CommercialInvoiceFields
      → Option BillOfLadingFields
      → Option ExtractionResult
      → Option ExtractionResult
      → List ConflictRecord
  invoice_conflicts (some i) (some b) (some ie) (some be) =
      listed
        (string_conflict h "exporter" ie.document_id i.seller be.document_id b.shipper
          (λ s. some (normalize_entity_name h s)))
        (listed
          (string_conflict h "vessel_name" ie.document_id i.vessel_name be.document_id b.vessel_name
            (λ s. some (normalize_free_text h s)))
          [])
  invoice_conflicts _ _ _ _ = []

  unfoldable pub port_conflicts :
      Option LetterOfCreditFields
      → Option BillOfLadingFields
      → Option ExtractionResult
      → Option ExtractionResult
      → List ConflictRecord
  port_conflicts (some l) (some b) (some le) (some be) =
      listed
        (string_conflict h "loading_port" le.document_id l.loading_port be.document_id
          b.loading_port (normalize_port h))
        (listed
          (string_conflict h "discharge_port" le.document_id l.discharge_port be.document_id
            b.discharge_port (normalize_port h))
          [])
  port_conflicts _ _ _ _ = []

  unfoldable pub all_conflicts : Papers → List ConflictRecord
  all_conflicts p = sorted conflict_order (
      invoice_conflicts p.invoice p.bl p.invoice_extraction p.bl_extraction
      ++ (port_conflicts p.lc p.bl p.lc_extraction p.bl_extraction
          ++ quantity_conflicts h (quantity_entries p)))
