-- ===== src/Dna/Transaction.antt =====
-- dna/builder.py: the sources that are kept and the result of `build_transaction_dna`.
pub mod Sources
pub mod Identity
use Prim.Native.String.{◌++◌ as ◌+◌}
use trade_sentry.Prelude.{
  ℕ, String, Bool, true, false, Option, none, some, List, [], ◌∷◌, string_eq, ◌==◌, is_some,
  if◌then◌else◌,
}
use trade_sentry.Prelude.Decimal.{Decimal}
use trade_sentry.Contracts.Extraction.{ExtractionResult}
use trade_sentry.Dna.{TransactionDna}
use trade_sentry.Dna.Normalization.{
  DnaHost, normalize_free_text, normalize_hs_code, normalize_identifier,
}
use trade_sentry.Dna.Conflicts.{confidence_flags}
use trade_sentry.Dna.Papers.{
  Papers, papers_of, RawFields, raw_fields, Normalized, then_get, normalize_given, all_sources,
}
use trade_sentry.Dna.Builder.{
  first_chars, normalization_methods, normalized_of, iso, fingerprint_of, canonical_quantity,
  value_in_usd, unit_value, all_conflicts,
}

-- `source_values.get(field) is not None`, from whether each value is one
abbrev pub has_value : String → List (String × Bool) → Bool
has_value field [] = false
has_value field ((f, present) ∷ rest) = if f == field then present else has_value field rest

-- the sources of fields that have a value
unfoldable pub with_values : List (String × Bool) → List (String × String) → List (String × String)
with_values values [] = []
with_values values ((f, id) ∷ rest) =
    let later = with_values values rest in if has_value f values then (f, id) ∷ later else later

-- `fst` of the quantity in its canonical unit, and its unit
abbrev amount_of : Option (Decimal × String) → Option Decimal
amount_of none = none
amount_of (some (v, u)) = some v

abbrev unit_of : Option (Decimal × String) → Option String
unit_of none = none
unit_of (some (v, u)) = some u

module _ (h : DnaHost) where
  -- `source_values`, each as whether it is not `None`
  unfoldable pub source_values : Papers → RawFields → Normalized → List (String × Bool)
  source_values p raw n =
      let quantity = canonical_quantity h raw.quantity raw.unit in
      let value = then_get (λ i. i.invoice_amount) p.invoice in
      let currency = then_get (λ i. i.currency) p.invoice in
      let usd = value_in_usd h value currency in
      ("raw_exporter", is_some raw.exporter)
      ∷ ("exporter_normalized", is_some n.exporter)
      ∷ ("raw_importer", is_some raw.importer)
      ∷ ("importer_normalized", is_some n.importer)
      ∷ ("raw_bl_number", is_some (then_get (λ b. b.bl_number) p.bl))
      ∷ ("bl_number_normalized", is_some n.bl_number)
      ∷ ("raw_vessel_name", is_some (then_get (λ b. b.vessel_name) p.bl))
      ∷ ("vessel_normalized", is_some n.vessel)
      ∷ ("imo_number", is_some (then_get (λ b. b.imo_number) p.bl))
      ∷ ("raw_voyage_number", is_some (then_get (λ b. b.voyage_number) p.bl))
      ∷ ("voyage_normalized", is_some n.voyage)
      ∷ ("raw_loading_port", is_some raw.loading_port)
      ∷ ("loading_port_unlocode", is_some n.loading_port)
      ∷ ("raw_discharge_port", is_some raw.discharge_port)
      ∷ ("discharge_port_unlocode", is_some n.discharge_port)
      ∷ ("raw_shipment_date", is_some raw.shipment_date)
      ∷ ("shipment_date_iso", is_some n.shipment_date)
      ∷ ("raw_commodity", is_some raw.commodity)
      ∷ ("commodity_normalized", is_some raw.commodity)
      ∷ ("raw_hs_code", is_some raw.hs_code)
      ∷ ("hs_code_canonical", is_some raw.hs_code)
      ∷ ("raw_quantity", is_some raw.quantity)
      ∷ ("raw_quantity_unit", is_some raw.unit)
      ∷ ("quantity_canonical", is_some (amount_of quantity))
      ∷ ("unit_canonical", is_some (unit_of quantity))
      ∷ ("raw_invoice_value", is_some value)
      ∷ ("raw_currency", is_some currency)
      ∷ ("invoice_value_usd", is_some usd)
      ∷ ("unit_value_usd_per_unit", is_some (unit_value h usd (amount_of quantity)))
      ∷ ("raw_lc_number", is_some (then_get (λ l. l.lc_number) p.lc))
      ∷ ("raw_invoice_number", is_some (then_get (λ i. i.invoice_number) p.invoice))
      ∷ []

  unfoldable pub transaction_id_of : (case_id fingerprint : String) → String
  transaction_id_of case_id fingerprint =
      "txn-" + first_chars 24 (h.sha256 (case_id + (":" + fingerprint)))

  unfoldable pub build_transaction_dna :
      (case_id presenting_ibu : String) → List ExtractionResult → (created_at : ℕ) → TransactionDna
  build_transaction_dna case_id presenting_ibu extractions created_at =
      let p = papers_of extractions in
      let raw = raw_fields p in
      let n = normalized_of h p raw in
      let quantity = canonical_quantity h raw.quantity raw.unit in
      let value = then_get (λ i. i.invoice_amount) p.invoice in
      let currency = then_get (λ i. i.currency) p.invoice in
      let usd = value_in_usd h value currency in
      let fingerprint = fingerprint_of h n in
      record {
        transaction_id = transaction_id_of case_id fingerprint;
        case_id = case_id;
        presenting_ibu = presenting_ibu;
        raw_exporter = raw.exporter;
        raw_importer = raw.importer;
        raw_bl_number = then_get (λ b. b.bl_number) p.bl;
        raw_vessel_name = then_get (λ b. b.vessel_name) p.bl;
        raw_voyage_number = then_get (λ b. b.voyage_number) p.bl;
        raw_loading_port = raw.loading_port;
        raw_discharge_port = raw.discharge_port;
        raw_shipment_date = iso h raw.shipment_date;
        raw_commodity = raw.commodity;
        raw_hs_code = raw.hs_code;
        raw_quantity = raw.quantity;
        raw_quantity_unit = raw.unit;
        raw_invoice_value = value;
        raw_currency = currency;
        raw_lc_number = then_get (λ l. l.lc_number) p.lc;
        raw_invoice_number = then_get (λ i. i.invoice_number) p.invoice;
        exporter_normalized = n.exporter;
        importer_normalized = n.importer;
        bl_number_normalized = n.bl_number;
        vessel_normalized = n.vessel;
        imo_number =
            normalize_given (λ s. some (normalize_identifier h s))
              (then_get (λ b. b.imo_number) p.bl);
        voyage_normalized = n.voyage;
        loading_port_unlocode = n.loading_port;
        discharge_port_unlocode = n.discharge_port;
        shipment_date_iso = n.shipment_date;
        commodity_normalized = normalize_given (λ s. some (normalize_free_text h s)) raw.commodity;
        hs_code_canonical = normalize_given (λ s. some (normalize_hs_code h s)) raw.hs_code;
        quantity_canonical = amount_of quantity;
        unit_canonical = unit_of quantity;
        invoice_value_usd = usd;
        unit_value_usd_per_unit = unit_value h usd (amount_of quantity);
        dna_fingerprint = fingerprint;
        source_documents = with_values (source_values p raw n) (all_sources p);
        normalization_methods = normalization_methods;
        confidence_flags = confidence_flags extractions;
        conflicts = all_conflicts h p;
        created_at = created_at;
      }
