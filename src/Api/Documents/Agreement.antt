-- ===== src/Api/Documents/Agreement.antt =====
-- The endpoint `completeness` beside `_completeness` of the orchestrator.
use trade_sentry.Prelude.{
  ◌≡◌, refl, ap, ◌∙◌, Bool, true, false, Option, none, some, List, [], ◌∷◌, map, Bool-cases, inl,
  inr, All,
}
use trade_sentry.Contracts.Documents.{DocumentType, letter_of_credit, type_beq, is_readable}
use trade_sentry.Contracts.Fields.{RequiredDocumentSpec}
use trade_sentry.Contracts.Extraction.{
  DocumentRecord, ExtractionResult, ExtractedFields, lc_fields, invoice_fields, bl_fields,
  packing_fields, insurance_fields, other_fields,
}
use trade_sentry.Intake.{StoredDocument, Extraction}
use trade_sentry.Investigation.Model.{DocumentSummary}
use trade_sentry.Investigation.Nodes.{summary_of, extractions_of}
use trade_sentry.Investigation.Completeness
use trade_sentry.Investigation.Completeness.{
  lc_extraction, required_types, with_fields, of_credit, pending, completeness_of,
}
use trade_sentry.Api.Documents.{
  completed_types, extracted_credit, all_types, required_of, required_by, types_required, judged,
  with_credit, completeness_result,
}

abbrev result_of : Option Extraction → Option ExtractionResult
result_of none = none
result_of (some e) = some e.result

-- The document as the orchestrator reads it.
abbrev pub record_of : StoredDocument → DocumentRecord
record_of d = record {
  id = d.id;
  document_type = d.document_type;
  status = d.status;
  overall_confidence = d.overall_confidence;
  extraction = result_of d.extraction;
}

abbrev pub summaries : List StoredDocument → List DocumentSummary
summaries ds = map summary_of (map record_of ds)

-- The extraction, if there is one, has the type of the document.
abbrev pub IsTypedAs : DocumentType → Option Extraction → Type 0
IsTypedAs t none = Unit
IsTypedAs t (some e) = e.result.document_type ≡ t

abbrev pub HasOwnType : StoredDocument → Type 0
HasOwnType d = IsTypedAs d.document_type d.extraction

abbrev has_lc_fields : ExtractedFields → Bool
has_lc_fields (lc_fields f) = true
has_lc_fields _ = false

abbrev is_lc_extraction : Option Extraction → Bool
is_lc_extraction none = false
is_lc_extraction (some e) = has_lc_fields e.result.fields

-- No credit was extracted, or the fields of the first one are those of a credit.
abbrev pub is_credit_read : Option StoredDocument → Bool
is_credit_read none = true
is_credit_read (some d) = is_lc_extraction d.extraction

completed_types-eq :
    (ds : List StoredDocument) → Completeness.completed_types (summaries ds) ≡ completed_types ds
unfolding completed_types
completed_types-eq [] = refl
completed_types-eq (d ∷ ds) = elim (Bool-cases (is_readable d.status)) [
  | inl e ↦ rw e (ap (λ ts. d.document_type ∷ ts) (completed_types-eq ds))
  | inr e ↦ rw e (completed_types-eq ds)
]

required_types-eq : (specs : List RequiredDocumentSpec) → required_types specs ≡ required_of specs
unfolding required_types
required_types-eq [] = refl
required_types-eq (s ∷ ss) = refl

abbrev credit_of : Option StoredDocument → Option ExtractionResult
credit_of none = none
credit_of (some d) = result_of d.extraction

-- with the extraction of the first document
first_credit :
    (d : StoredDocument) (o : Option Extraction) (ds : List StoredDocument)
    → d.extraction ≡ o
    → IsTypedAs d.document_type o
    → lc_extraction (extractions_of (map record_of ds)) ≡ credit_of (extracted_credit ds)
    → lc_extraction (extractions_of (map record_of (d ∷ ds)))
      ≡ credit_of (extracted_credit (d ∷ ds))
first_credit d none ds e t ih = elim (Bool-cases (type_beq d.document_type letter_of_credit)) [
  | inl f ↦ rw (e, f) ih
  | inr f ↦ rw (e, f) ih
]
first_credit d (some x) ds e t ih = elim (Bool-cases (type_beq d.document_type letter_of_credit)) [
  | inl f ↦ rw (e, t, f) refl
  | inr f ↦ rw (e, t, f) ih
]

lc_extraction-eq :
    (ds : List StoredDocument)
    → All HasOwnType ds
    → lc_extraction (extractions_of (map record_of ds)) ≡ credit_of (extracted_credit ds)
lc_extraction-eq [] _ = refl
lc_extraction-eq (d ∷ ds) (t, ts) = first_credit d d.extraction ds refl t (lc_extraction-eq ds ts)

judged-eq :
    (ds : List StoredDocument) (fields : ExtractedFields)
    → has_lc_fields fields ≡ true
    → judged (completed_types ds) (required_by fields) ≡ with_fields (summaries ds) fields
judged-eq ds (lc_fields f) r =
    rw (completed_types-eq ds, required_types-eq f.required_documents) refl
judged-eq ds (invoice_fields f) r = absurd (cc)
judged-eq ds (bl_fields f) r = absurd (cc)
judged-eq ds (packing_fields f) r = absurd (cc)
judged-eq ds (insurance_fields f) r = absurd (cc)
judged-eq ds other_fields r = absurd (cc)

judged_extraction :
    (ds : List StoredDocument) (o : Option Extraction)
    → is_lc_extraction o ≡ true
    → judged (completed_types ds) (types_required o) ≡ of_credit (summaries ds) (result_of o)
judged_extraction ds none r = absurd (cc)
judged_extraction ds (some e) r = judged-eq ds e.result.fields r

with_credit-eq :
    (ds : List StoredDocument) (o : Option StoredDocument)
    → is_credit_read o ≡ true
    → with_credit (completed_types ds) o ≡ of_credit (summaries ds) (credit_of o)
with_credit-eq ds none r = rw (completed_types-eq ds) refl
with_credit-eq ds (some d) r = judged_extraction ds d.extraction r

-- If no credit was extracted or the first one has the fields of a credit, and every extraction has
-- the type of its document, the endpoint answers what the investigation finds for the documents.
pub completeness_result-completeness_of :
    (ds : List StoredDocument)
    → All HasOwnType ds
    → is_credit_read (extracted_credit ds) ≡ true
    → completeness_result ds ≡ completeness_of (summaries ds) (extractions_of (map record_of ds))
unfolding completeness_result completeness_of
completeness_result-completeness_of ds t r =
    rw (lc_extraction-eq ds t) (with_credit-eq ds (extracted_credit ds) r)

unread_fields :
    (ds : List DocumentSummary) (fields : ExtractedFields)
    → has_lc_fields fields ≡ false
    → (with_fields ds fields ≡ pending ds) × (required_by fields ≡ all_types)
unread_fields ds (lc_fields f) r = absurd (cc)
unread_fields ds (invoice_fields f) r = (refl, refl)
unread_fields ds (bl_fields f) r = (refl, refl)
unread_fields ds (packing_fields f) r = (refl, refl)
unread_fields ds (insurance_fields f) r = (refl, refl)
unread_fields ds other_fields r = (refl, refl)

unread_extraction :
    (ds : List DocumentSummary) (o : Option Extraction)
    → is_lc_extraction o ≡ false
    → (of_credit ds (result_of o) ≡ pending ds) × (types_required o ≡ all_types)
unread_extraction ds none r = (refl, refl)
unread_extraction ds (some e) r = unread_fields ds e.result.fields r

-- If every extraction has the type of its document, a credit with other fields than those of a credit
-- leaves the investigation pending, while the endpoint judges the documents against all types.
pub completeness_result-unread_credit :
    (ds : List StoredDocument) (lc : StoredDocument)
    → All HasOwnType ds
    → extracted_credit ds ≡ some lc
    → is_credit_read (some lc) ≡ false
    → (completeness_of (summaries ds) (extractions_of (map record_of ds)) ≡ pending (summaries ds))
      × (completeness_result ds ≡ judged (completed_types ds) all_types)
unfolding completeness_result completeness_of
completeness_result-unread_credit ds lc t e r =
    let u = unread_extraction (summaries ds) lc.extraction r in
    (
      rw (lc_extraction-eq ds t, e) u.0,
      ap (with_credit (completed_types ds)) e ∙ ap (judged (completed_types ds)) u.1,
    )
