-- ===== src/Investigation/Completeness/Complete.antt =====
-- When `_completeness` says COMPLETE.
use trade_sentry.Prelude.{
  ◌≡◌, ◌≢◌, refl, ◌↔◌, ◌⊎◌, map, Bool, true, false, not, List, [], ◌∷◌, All, keep, elem, is_empty,
  if◌then◌else◌, arith, Bool-cases, inl, inr,
}
use trade_sentry.Contracts.Documents.{
  DocumentType, complete, incomplete, is_complete, type_eq, letter_of_credit, commercial_invoice,
  bill_of_lading, packing_list, certificate_of_origin, insurance_certificate,
  inspection_certificate, extracted, partially, DocumentStatus, is_readable, type_beq, type_beq_iff,
}
use trade_sentry.Contracts.Fields.{RequiredDocumentSpec}
use trade_sentry.Contracts.Extraction.{
  ExtractionResult, ExtractedFields, lc_fields, invoice_fields, bl_fields, packing_fields,
  insurance_fields, other_fields,
}
use trade_sentry.Investigation.Model.{DocumentSummary}
use trade_sentry.Investigation.Completeness.{
  completed_types, lc_extraction, required_types, judged, with_fields, of_credit, completeness_of,
}

rejected-nil_iff {ℓ} :
    {A : Type ℓ} (p : A → Bool) (xs : List A)
    → (is_empty (keep (λ x. not (p x)) xs) ≡ true) ↔ All (λ x. p x ≡ true) xs
rejected-nil_iff p [] = (λ _. tt, λ _. refl)
rejected-nil_iff p (x ∷ xs) =
    let rest = rejected-nil_iff p xs in
    elim (Bool-cases (p x)) [
      | inl e ↦ rw e (λ h. (refl, rest.0 h), λ a. rest.1 a.1)
      | inr e ↦ rw e (λ h. absurd (ground (arith, h)), λ a. absurd (ground (arith, a.0)))
    ]

-- A document of this type was extracted, in full or in part.
abbrev pub IsRead : List DocumentSummary → DocumentType → Type 0
IsRead [] t = ⊥
IsRead (d ∷ ds) t =
    ((d.document_type ≡ t) × ((d.status ≡ extracted) ⊎ (d.status ≡ partially))) ⊎ IsRead ds t

-- Every document that the credit requires was read; a credit that lists none requires one of each
-- type.
abbrev pub IsSupplied : List DocumentSummary → List RequiredDocumentSpec → Type 0
IsSupplied ds [] =
    IsRead ds letter_of_credit
    × (IsRead ds commercial_invoice
        × (IsRead ds bill_of_lading
            × (IsRead ds packing_list
                × (IsRead ds certificate_of_origin
                    × (IsRead ds insurance_certificate × IsRead ds inspection_certificate)))))
IsSupplied ds (spec ∷ specs) =
    All (λ x. (x.required ≡ false) ⊎ IsRead ds x.document_type) (spec ∷ specs)

-- The fields are those of a credit, and what it requires was read.
abbrev pub IsServed : List DocumentSummary → ExtractedFields → Type 0
IsServed ds (lc_fields f) = IsSupplied ds f.required_documents
IsServed ds _ = ⊥

-- The first extraction of a credit is served.
abbrev pub IsPresented : List DocumentSummary → List ExtractionResult → Type 0
IsPresented ds [] = ⊥
IsPresented ds (e ∷ es) =
    ((e.document_type ≡ letter_of_credit) × IsServed ds e.fields)
    ⊎ ((e.document_type ≢ letter_of_credit) × IsPresented ds es)

readable_iff : (s : DocumentStatus) → (is_readable s ≡ true) ↔ ((s ≡ extracted) ⊎ (s ≡ partially))
readable_iff s = ground arith

read_iff :
    (ds : List DocumentSummary) (t : DocumentType)
    → (elem t (completed_types ds) ≡ true) ↔ IsRead ds t
read_iff [] t = ground arith
read_iff (d ∷ ds) t = ground (
  arith,
  read_iff ds t,
  readable_iff d.status,
  type_beq_iff d.document_type t,
  type_beq_iff t d.document_type,
)

All-required :
    (ds : List DocumentSummary) (specs : List RequiredDocumentSpec)
    → All
        (λ t. elem t (completed_types ds) ≡ true)
        (map (λ x. x.document_type) (keep (λ x. x.required) specs))
      ↔ All (λ x. (x.required ≡ false) ⊎ IsRead ds x.document_type) specs
All-required ds [] = ((λ x. x), (λ x. x))
All-required ds (x ∷ xs) = ground (arith, All-required ds xs, read_iff ds x.document_type)

required_iff :
    (ds : List DocumentSummary) (specs : List RequiredDocumentSpec)
    → All (λ t. elem t (completed_types ds) ≡ true) (required_types specs) ↔ IsSupplied ds specs
unfolding required_types
required_iff ds [] = ground (
  arith,
  read_iff ds letter_of_credit,
  read_iff ds commercial_invoice,
  read_iff ds bill_of_lading,
  read_iff ds packing_list,
  read_iff ds certificate_of_origin,
  read_iff ds insurance_certificate,
  read_iff ds inspection_certificate,
)
required_iff ds (spec ∷ specs) = All-required ds (spec ∷ specs)

status-complete_iff :
    (b : Bool) → (is_complete (if b then complete else incomplete) ≡ true) ↔ (b ≡ true)
status-complete_iff true = (λ _. refl, λ _. refl)
status-complete_iff false = ground arith

judged-complete_iff :
    (documents : List DocumentSummary) (required : List DocumentType)
    → (is_complete (judged documents required).status ≡ true)
      ↔ All (λ t. elem t (completed_types documents) ≡ true) required
judged-complete_iff documents required =
    let s =
      status-complete_iff
        (is_empty (keep (λ t. not (elem t (completed_types documents))) required)) in
    let r = rejected-nil_iff (λ t. elem t (completed_types documents)) required in
    (λ h. r.0 (s.0 h), λ a. s.1 (r.1 a))

with_fields-complete_iff :
    (documents : List DocumentSummary) (fields : ExtractedFields)
    → (is_complete (with_fields documents fields).status ≡ true) ↔ IsServed documents fields
with_fields-complete_iff documents (lc_fields f) =
    let judgement = judged-complete_iff documents (required_types f.required_documents) in
    let supply = required_iff documents f.required_documents in
    (λ h. supply.0 (judgement.0 h), λ s. judgement.1 (supply.1 s))
with_fields-complete_iff documents (invoice_fields f) = ground arith
with_fields-complete_iff documents (bl_fields f) = ground arith
with_fields-complete_iff documents (packing_fields f) = ground arith
with_fields-complete_iff documents (insurance_fields f) = ground arith
with_fields-complete_iff documents other_fields = ground arith

of_credit-complete_iff :
    (documents : List DocumentSummary) (extractions : List ExtractionResult)
    → (is_complete (of_credit documents (lc_extraction extractions)).status ≡ true)
      ↔ IsPresented documents extractions
of_credit-complete_iff documents [] = ground arith
of_credit-complete_iff documents (e ∷ es) =
    elim (Bool-cases (type_beq e.document_type letter_of_credit)) [
      | inl h ↦ rw h (
          ground (
            arith,
            with_fields-complete_iff documents e.fields,
            (type_beq_iff e.document_type letter_of_credit).0 h,
          ))
      | inr h ↦ rw h (
          ground (
            arith,
            of_credit-complete_iff documents es,
            type_beq_iff e.document_type letter_of_credit,
            h,
          ))
    ]

-- The document set is COMPLETE exactly when the first extraction of a credit has the fields of one,
-- and each document that the credit marks as required is of a type of which a document was
-- extracted, in full or in part; a credit that lists no documents requires one of each of the seven
-- types.
pub completeness_of-complete_iff :
    (documents : List DocumentSummary) (extractions : List ExtractionResult)
    → (is_complete (completeness_of documents extractions).status ≡ true)
      ↔ IsPresented documents extractions
unfolding completeness_of
completeness_of-complete_iff documents extractions = of_credit-complete_iff documents extractions
