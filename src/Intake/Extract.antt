-- ===== src/Intake/Extract.antt =====
-- apps/api/tradesentry_api/processor.py: `_coerce_value` and `build_extraction`.
use trade_sentry.Prelude.{
  ℕ, String, Bool, ◌||◌, not, Option, none, some, List, [], ◌∷◌, map, elem, is_empty, nat_beq,
  string_eq, ◌==◌, if◌then◌else◌,
}
use trade_sentry.Prelude.Decimal.{Decimal, decimal, lt}
use trade_sentry.Prelude.Sort.{sorted}
use trade_sentry.Prelude.Text.{is_text, codes, le_codes}
use trade_sentry.Contracts.Documents.{
  DocumentType, DocumentStatus, unknown, extracted, partially, type_beq,
}
use trade_sentry.Contracts.Extraction.{ExtractedFields, other_fields}
use trade_sentry.Dna.Normalization.{get}
use trade_sentry.Dna.Text.{keep_chars}
use trade_sentry.Dna.Conflicts.{add_flag}
use trade_sentry.Intake.{
  Value, text_value, decimal_value, int_value, QueryAnswer, RawOcrResult, Extraction,
  StoredDocument,
}

-- What the processor takes from the library and pydantic: `lower`, `isdigit`, `Decimal` and `int` of a
-- text, and the validation of the values by the schema of a type.
pub record ExtractHost : Type 0 where
  pub lower : String → String
  pub isdigit : ℕ → Bool
  pub decimal_of : String → Option Decimal
  pub int_of : String → ℕ
  pub model_validate : DocumentType → List (String × Value) → Option ExtractedFields

abbrev pub question_fields : List (String × String)
question_fields =
    ("what is the lc number?", "lc_number")
    ∷ ("what is the credit amount?", "credit_amount")
    ∷ ("what is the expiry date?", "expiry_date")
    ∷ ("who is the beneficiary?", "beneficiary")
    ∷ ("who is the applicant?", "applicant")
    ∷ ("what is the latest shipment date?", "latest_shipment_date")
    ∷ ("what is the presentation period?", "credit_specific_presentation_days")
    ∷ ("what is the port of loading?", "loading_port")
    ∷ ("what is the port of discharge?", "discharge_port")
    ∷ ("what is the bill of lading number?", "bl_number")
    ∷ ("what is the vessel name?", "vessel_name")
    ∷ ("what is the imo number?", "imo_number")
    ∷ ("what is the voyage number?", "voyage_number")
    ∷ ("what is the on-board date?", "on_board_date")
    ∷ ("who is the shipper?", "shipper")
    ∷ ("who is the consignee?", "consignee")
    ∷ ("what is the invoice number?", "invoice_number")
    ∷ ("what is the invoice amount?", "invoice_amount")
    ∷ ("what is the currency?", "currency")
    ∷ ("what is the quantity?", "quantity")
    ∷ ("what is the unit price?", "unit_price")
    ∷ ("what is the hs code?", "hs_code")
    ∷ ("what is the country of origin?", "country_of_origin")
    ∷ ("what is the certificate number?", "certificate_number")
    ∷ ("who is the exporter?", "exporter")
    ∷ ("what is the policy number?", "policy_number")
    ∷ ("what is the insured amount?", "insured_amount")
    ∷ ("who is the insured party?", "insured_party")
    ∷ ("who is the insurer?", "insurer")
    ∷ []

abbrev pub decimal_fields : List String
decimal_fields =
    "credit_amount" ∷ "invoice_amount" ∷ "insured_amount" ∷ "quantity" ∷ "unit_price" ∷ []

-- `values[name] = value`
abbrev pub set_value {ℓ} : {V : Type ℓ} → String → V → List (String × V) → List (String × V)
set_value name value [] = (name, value) ∷ []
set_value name value ((n, v) ∷ rest) =
    let later = set_value name value rest in if n == name then (n, value) ∷ rest else (n, v) ∷ later

abbrev pub low_confidence : Decimal
low_confidence = decimal 70 2

-- whether the page or the document was read badly
unfoldable pub is_partial : RawOcrResult → Bool
is_partial raw = lt raw.overall_confidence low_confidence || not (is_empty raw.low_confidence_pages)

-- the names of the fields with a low confidence, each once
abbrev pub low_fields : List (String × QueryAnswer) → List String
low_fields [] = []
low_fields ((name, a) ∷ rest) =
    let later = low_fields rest in
    if lt a.confidence low_confidence then add_flag name later else later

abbrev pub or_value : Option Decimal → String → Value
or_value none value = text_value value
or_value (some d) value = decimal_value d

module _ (h : ExtractHost) where
  unfoldable pub coerce_value : (field_name value : String) → Value
  coerce_value field_name value =
      let number = keep_chars (λ c. h.isdigit c || (nat_beq c b'.' || nat_beq c b'-')) value in
      let digits = keep_chars h.isdigit value in
      if elem field_name decimal_fields
      then or_value (h.decimal_of number) value
      else if field_name == "credit_specific_presentation_days"
      then (if is_text digits then int_value (h.int_of digits) else text_value value)
      else text_value value

  -- the answers to questions that are known, by field; a later answer to a field replaces an earlier
  unfoldable pub answered :
      List (String × QueryAnswer) → List (String × QueryAnswer) → List (String × QueryAnswer)
  answered [] found = found
  answered ((question, a) ∷ rest) found = elim (get (h.lower question) question_fields) [
    | none ↦ answered rest found
    | some name ↦ answered rest (set_value name a found)
  ]

  abbrev pub with_answers :
      List (String × QueryAnswer) → List (String × Value) → List (String × Value)
  with_answers [] values = values
  with_answers ((name, a) ∷ rest) values =
      with_answers rest (set_value name (coerce_value name a.answer) values)

  -- the typed fields, and whether the schema refused the values
  abbrev pub typed_fields : DocumentType → List (String × Value) → Option ExtractedFields
  typed_fields t values =
      if type_beq t unknown then some other_fields else h.model_validate t values

  abbrev pub fields_or : Option ExtractedFields → ExtractedFields
  fields_or none = other_fields
  fields_or (some f) = f

  abbrev pub status_of : RawOcrResult → Option ExtractedFields → DocumentStatus
  status_of raw none = partially
  status_of raw (some f) = if is_partial raw then partially else extracted

  unfoldable pub build_extraction :
      StoredDocument → RawOcrResult → (fallback_fields : List (String × Value)) → Extraction
  build_extraction document raw fallback_fields =
      let found = answered raw.query_results [] in
      let values = with_answers found fallback_fields in
      let fields = typed_fields document.document_type values in
      record {
        result = record {
          document_id = document.id;
          document_type = document.document_type;
          fields = fields_or fields;
          page_refs = map (λ f. (f.0, f.1.page ∷ [])) found;
          extraction_flags = sorted (λ a b. le_codes (codes a) (codes b)) (low_fields found);
        };
        confidence = found;
        overall_confidence = raw.overall_confidence;
        processing_status = status_of raw fields;
      }
