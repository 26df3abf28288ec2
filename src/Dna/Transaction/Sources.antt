-- ===== src/Dna/Transaction/Sources.antt =====
-- dna/builder.py: `source_documents`.
use mathlib.Core.Path.{subst, sym}
use trade_sentry.Prelude.{
  ℕ, String, ◌≡◌, refl, Bool, true, false, Option, none, some, List, [], ◌∷◌, map, any, is_some,
  All, All-append, arith, Bool-cases, inl, inr, string_eq, ◌==◌,
}
use trade_sentry.Contracts.Documents.{
  DocumentType, letter_of_credit, commercial_invoice, bill_of_lading, type_beq,
}
use trade_sentry.Contracts.Extraction.{ExtractionResult}
use trade_sentry.Dna.Normalization.{DnaHost}
use trade_sentry.Dna.Papers.{
  papers_of, raw_fields, extraction_of, is_given, then_get, source, chosen, source_groups,
  sources_of, all_sources,
}
use trade_sentry.Dna.Builder.{normalized_of, iso}
use trade_sentry.Dna.{TransactionDna}
use trade_sentry.Contracts.Fields.{Date}
use trade_sentry.Dna.Transaction.{build_transaction_dna, with_values, has_value, source_values}

-- the extraction of the document with this id is in the list
abbrev pub is_presented : List ExtractionResult → String → Bool
is_presented es id = any (λ e. e.document_id == id) es

-- the extraction, if there is one, is of a document in the list
abbrev pub IsPresented : List ExtractionResult → Option ExtractionResult → Type 0
IsPresented es none = Unit
IsPresented es (some e) = is_presented es e.document_id ≡ true

widen :
    (x : ExtractionResult) (es : List ExtractionResult) (o : Option ExtractionResult)
    → IsPresented es o
    → IsPresented (x ∷ es) o
widen x es none _ = tt
widen x es (some e) p = ground (arith, p)

extraction_of-IsPresented :
    (t : DocumentType) (es : List ExtractionResult) → IsPresented es (extraction_of t es)
extraction_of-IsPresented t [] = tt
extraction_of-IsPresented t (x ∷ es) = elim (Bool-cases (type_beq x.document_type t)) [
  | inl e ↦ rw e (ground (arith, string_eq.beq_iff x.document_id x.document_id))
  | inr e ↦ rw e (widen x es (extraction_of t es) (extraction_of-IsPresented t es))
]

chosen-IsPresented :
    (es : List ExtractionResult) (b : Bool) (x y : Option ExtractionResult)
    → IsPresented es x
    → IsPresented es y
    → IsPresented es (chosen b x y)
chosen-IsPresented es true x y p q = p
chosen-IsPresented es false x y p q = q

abbrev pub FromCase : List ExtractionResult → String × String → Type 0
FromCase es s = is_presented es s.1 ≡ true

named-All :
    (es : List ExtractionResult) (id : String) (fields : List String)
    → is_presented es id ≡ true
    → All (FromCase es) (map (λ f. (f, id)) fields)
named-All es id [] p = tt
named-All es id (f ∷ fs) p = (p, named-All es id fs p)

source-All :
    (es : List ExtractionResult) (fields : List String) (o : Option ExtractionResult)
    → IsPresented es o
    → All (FromCase es) (source fields o)
source-All es fields none _ = tt
source-All es fields (some e) p = named-All es e.document_id fields p

-- The fields of a DNA that can have a source, each with whether it is given: the field itself is not
-- `None`, or, for `commodity_normalized`, `hs_code_canonical` and `imo_number`, the raw text that it
-- is made from, which for the last is the one of the bill of lading.
abbrev pub given_fields : TransactionDna → (imo : Option String) → List (String × Bool)
given_fields dna imo =
    ("raw_exporter", is_some dna.raw_exporter)
    ∷ ("exporter_normalized", is_some dna.exporter_normalized)
    ∷ ("raw_importer", is_some dna.raw_importer)
    ∷ ("importer_normalized", is_some dna.importer_normalized)
    ∷ ("raw_bl_number", is_some dna.raw_bl_number)
    ∷ ("bl_number_normalized", is_some dna.bl_number_normalized)
    ∷ ("raw_vessel_name", is_some dna.raw_vessel_name)
    ∷ ("vessel_normalized", is_some dna.vessel_normalized)
    ∷ ("imo_number", is_some imo)
    ∷ ("raw_voyage_number", is_some dna.raw_voyage_number)
    ∷ ("voyage_normalized", is_some dna.voyage_normalized)
    ∷ ("raw_loading_port", is_some dna.raw_loading_port)
    ∷ ("loading_port_unlocode", is_some dna.loading_port_unlocode)
    ∷ ("raw_discharge_port", is_some dna.raw_discharge_port)
    ∷ ("discharge_port_unlocode", is_some dna.discharge_port_unlocode)
    ∷ ("raw_shipment_date", is_some dna.raw_shipment_date)
    ∷ ("shipment_date_iso", is_some dna.shipment_date_iso)
    ∷ ("raw_commodity", is_some dna.raw_commodity)
    ∷ ("commodity_normalized", is_some dna.raw_commodity)
    ∷ ("raw_hs_code", is_some dna.raw_hs_code)
    ∷ ("hs_code_canonical", is_some dna.raw_hs_code)
    ∷ ("raw_quantity", is_some dna.raw_quantity)
    ∷ ("raw_quantity_unit", is_some dna.raw_quantity_unit)
    ∷ ("quantity_canonical", is_some dna.quantity_canonical)
    ∷ ("unit_canonical", is_some dna.unit_canonical)
    ∷ ("raw_invoice_value", is_some dna.raw_invoice_value)
    ∷ ("raw_currency", is_some dna.raw_currency)
    ∷ ("invoice_value_usd", is_some dna.invoice_value_usd)
    ∷ ("unit_value_usd_per_unit", is_some dna.unit_value_usd_per_unit)
    ∷ ("raw_lc_number", is_some dna.raw_lc_number)
    ∷ ("raw_invoice_number", is_some dna.raw_invoice_number)
    ∷ []

-- the IMO number that the bill of lading gives
abbrev pub presented_imo : List ExtractionResult → Option String
presented_imo es = then_get (λ b. b.imo_number) (papers_of es).bl

-- the field is given, and the document is one of the case
abbrev pub IsSourced : List ExtractionResult → TransactionDna → String × String → Type 0
IsSourced es dna s = (has_value s.0 (given_fields dna (presented_imo es)) ≡ true) × FromCase es s

module _ (h : DnaHost) where
  iso-is_some : (d : Option Date) → is_some (iso h d) ≡ is_some d
  unfolding iso
  iso-is_some none = refl
  iso-is_some (some d) = refl

  source_values-given :
      (case_id presenting_ibu : String) (es : List ExtractionResult) (created_at : ℕ)
      → given_fields
          (build_transaction_dna h case_id presenting_ibu es created_at)
          (presented_imo es)
        ≡ source_values h
            (papers_of es)
            (raw_fields (papers_of es))
            (normalized_of h (papers_of es) (raw_fields (papers_of es)))
  unfolding build_transaction_dna source_values
  source_values-given case_id presenting_ibu es created_at =
      rw (iso-is_some (raw_fields (papers_of es)).shipment_date) refl

  with_values-All :
      (es : List ExtractionResult) (values : List (String × Bool)) (ss : List (String × String))
      → All (FromCase es) ss
      → All (λ s. (has_value s.0 values ≡ true) × FromCase es s) (with_values values ss)
  unfolding with_values
  with_values-All es values [] _ = tt
  with_values-All es values (s ∷ ss) (a, as') =
      let rest = with_values-All es values ss as' in
      elim (Bool-cases (has_value s.0 values)) [ inl e ↦ rw e ((e, a), rest) | inr e ↦ rw e rest ]

sources_of-All :
    (es : List ExtractionResult) (groups : List (List String × Option ExtractionResult))
    → All (λ g. IsPresented es g.1) groups
    → All (FromCase es) (sources_of groups)
sources_of-All es [] _ = tt
sources_of-All es ((fields, extraction) ∷ rest) (p, ps) =
    All-append (FromCase es) (source fields extraction) (sources_of rest)
      (source-All es fields extraction p) (sources_of-All es rest ps)

source_groups-All :
    (es : List ExtractionResult) → All (λ g. IsPresented es g.1) (source_groups (papers_of es))
unfolding papers_of source_groups
source_groups-All es =
    let lc = extraction_of-IsPresented letter_of_credit es in
    let invoice = extraction_of-IsPresented commercial_invoice es in
    let bl = extraction_of-IsPresented bill_of_lading es in
    let p = papers_of es in
    let of_two =
      λ (b : Bool). chosen-IsPresented es b p.invoice_extraction p.bl_extraction invoice bl in
    let of_credit = λ (b : Bool). chosen-IsPresented es b p.lc_extraction p.bl_extraction lc bl in
    (
      of_two (is_given (then_get (λ i. i.seller) p.invoice)),
      (
        of_two (is_given (then_get (λ i. i.buyer) p.invoice)),
        (
          bl,
          (
            of_credit (is_given (then_get (λ l. l.loading_port) p.lc)),
            (
              of_credit (is_given (then_get (λ l. l.discharge_port) p.lc)),
              (
                of_two (is_given (then_get (λ i. i.goods_description) p.invoice)),
                (
                  of_two (is_given (then_get (λ i. i.hs_code) p.invoice)),
                  (
                    of_two (is_some (then_get (λ i. i.quantity) p.invoice)),
                    (of_two (is_given (then_get (λ i. i.unit) p.invoice)), (invoice, (lc, tt))),
                  ),
                ),
              ),
            ),
          ),
        ),
      ),
    )

module _ (h : DnaHost) where
  -- Whatever is presented, each entry of `source_documents` names a document of the case and a field
  -- of the DNA that is not `None`, save that `commodity_normalized`, `hs_code_canonical` and
  -- `imo_number` also keep their entry where only the raw text that they are made from is given.
  pub source_documents-All :
      (case_id presenting_ibu : String) (es : List ExtractionResult) (created_at : ℕ)
      → let dna = build_transaction_dna h case_id presenting_ibu es created_at in
        All (IsSourced es dna) dna.source_documents
  unfolding build_transaction_dna all_sources
  source_documents-All case_id presenting_ibu es created_at =
      let p = papers_of es in
      subst
        (λ values.
          All (λ s. (has_value s.0 values ≡ true) × FromCase es s)
            (with_values (source_values h p (raw_fields p) (normalized_of h p (raw_fields p)))
              (all_sources p)))
        (sym (source_values-given h case_id presenting_ibu es created_at))
        (with_values-All h es (source_values h p (raw_fields p) (normalized_of h p (raw_fields p)))
          (all_sources p) (sources_of-All es (source_groups p) (source_groups-All es)))
