-- ===== src/Dna/Conflicts.antt =====
-- dna/builder.py: `_string_conflict`, `_quantity_conflicts` and `_confidence_flags`.
pub mod Exact
use Prim.Native.String.{◌++◌ as ◌+◌}
use trade_sentry.Prelude.{
  String, Bool, true, false, ◌&&◌, not, Option, none, some, List, [], ◌∷◌, map, elem, if◌then◌else◌,
  ◌==◌, string_eq, option_beq,
}
use trade_sentry.Prelude.Decimal.{Decimal, decimal, le, eq}
use trade_sentry.Prelude.Sort.{sorted}
use trade_sentry.Prelude.Text.{codes, le_codes}
use trade_sentry.Contracts.Extraction.{ExtractionResult}
use trade_sentry.Dna.{ConflictRecord, material, advisory}
use trade_sentry.Dna.Normalization.{DnaHost, normalize_quantity, get}

abbrev pub advisory_similarity_threshold : Decimal
advisory_similarity_threshold = decimal 82 2

-- `str` of a normalized value
abbrev pub shown : Option String → String
shown none = "None"
shown (some s) = s

-- One entry of the list of quantities: document, quantity and unit.
pub record QuantityEntry : Type 0 where
  pub document_id : String
  pub value : Option Decimal
  pub unit : Option String

-- A quantity that was read: the canonical one, and the one of the document.
pub record ReadQuantity : Type 0 where
  pub document_id : String
  pub canonical : Decimal
  pub canonical_unit : String
  pub value : Decimal
  pub unit : String

module _ (h : DnaHost) where
  open h use {ratio, str}

  -- Both values are given: a conflict if their normal forms differ.
  unfoldable pub compare_values :
      (field_name document_a_id value_a document_b_id value_b : String)
      (normalizer : String → Option String)
      → Option ConflictRecord
  compare_values field_name document_a_id value_a document_b_id value_b normalizer =
      if option_beq (normalizer value_a) (normalizer value_b)
      then none
      else some (record {
        field_name = field_name;
        document_a_id = document_a_id;
        document_a_value = value_a;
        document_b_id = document_b_id;
        document_b_value = value_b;
        severity =
            if le advisory_similarity_threshold
              (ratio (shown (normalizer value_a)) (shown (normalizer value_b)))
            then advisory
            else material;
      })

  unfoldable pub string_conflict :
      (field_name document_a_id : String) (value_a : Option String) (document_b_id : String)
      (value_b : Option String) (normalizer : String → Option String)
      → Option ConflictRecord
  string_conflict field_name document_a_id none document_b_id value_b normalizer = none
  string_conflict field_name document_a_id (some a) document_b_id none normalizer = none
  string_conflict field_name document_a_id (some a) document_b_id (some b) normalizer =
      compare_values field_name document_a_id a document_b_id b normalizer

  -- an entry without a value, a unit or a unit that is known is passed over
  abbrev pub read_quantity :
      (document_id : String) → Option Decimal → Option String → Option ReadQuantity
  read_quantity document_id none unit = none
  read_quantity document_id (some v) none = none
  read_quantity document_id (some v) (some u) = elim (normalize_quantity h v u) [
    | none ↦ none
    | some (canonical, canonical_unit) ↦ some (record {
      document_id = document_id;
      canonical = canonical;
      canonical_unit = canonical_unit;
      value = v;
      unit = u;
    })
  ]

  -- the list `normalized`
  unfoldable pub read_quantities : List QuantityEntry → List ReadQuantity
  read_quantities [] = []
  read_quantities (e ∷ es) =
      let rest = read_quantities es in
      elim (read_quantity e.document_id e.value e.unit) [ none ↦ rest | some q ↦ q ∷ rest ]

  abbrev pub same_quantity : ReadQuantity → ReadQuantity → Bool
  same_quantity a b = eq a.canonical b.canonical && (a.canonical_unit == b.canonical_unit)

  abbrev quantity_conflict : ReadQuantity → ReadQuantity → ConflictRecord
  quantity_conflict a b = record {
    field_name = "quantity";
    document_a_id = a.document_id;
    document_a_value = str a.value + (" " + a.unit);
    document_b_id = b.document_id;
    document_b_value = str b.value + (" " + b.unit);
    severity = material;
  }

  -- every later quantity against the first
  unfoldable pub against_first : ReadQuantity → List ReadQuantity → List ConflictRecord
  against_first a [] = []
  against_first a (b ∷ bs) =
      let rest = against_first a bs in
      if same_quantity a b then rest else quantity_conflict a b ∷ rest

  abbrev pub conflicts_among : List ReadQuantity → List ConflictRecord
  conflicts_among [] = []
  conflicts_among (a ∷ bs) = against_first a bs

  unfoldable pub quantity_conflicts : List QuantityEntry → List ConflictRecord
  quantity_conflicts entries = conflicts_among (read_quantities entries)

abbrev pub field_map : List (String × String)
field_map =
    ("seller", "exporter_normalized")
    ∷ ("shipper", "exporter_normalized")
    ∷ ("buyer", "importer_normalized")
    ∷ ("consignee", "importer_normalized")
    ∷ ("bl_number", "bl_number_normalized")
    ∷ ("vessel_name", "vessel_normalized")
    ∷ ("voyage_number", "voyage_normalized")
    ∷ ("loading_port", "loading_port_unlocode")
    ∷ ("discharge_port", "discharge_port_unlocode")
    ∷ ("on_board_date", "shipment_date_iso")
    ∷ ("goods_description", "commodity_normalized")
    ∷ ("hs_code", "hs_code_canonical")
    ∷ ("quantity", "quantity_canonical")
    ∷ ("invoice_amount", "invoice_value_usd")
    ∷ ("currency", "invoice_value_usd")
    ∷ []

-- `field_map.get(field, field)`
abbrev pub mapped_field : String → String
mapped_field field = elim (get field field_map) [ none ↦ field | some f ↦ f ]

-- a set's items, each once
abbrev pub add_flag : String → List String → List String
add_flag f fs = if elem f fs then fs else f ∷ fs

abbrev pub add_flags : List String → List String → List String
add_flags [] fs = fs
add_flags (x ∷ xs) fs = add_flag (mapped_field x) (add_flags xs fs)

abbrev pub all_flags : List ExtractionResult → List String
all_flags [] = []
all_flags (e ∷ es) = add_flags e.extraction_flags (all_flags es)

-- `_confidence_flags`
unfoldable pub confidence_flags : List ExtractionResult → List String
confidence_flags extractions = sorted (λ a b. le_codes (codes a) (codes b)) (all_flags extractions)
