-- ===== src/Api/Documents.antt =====
-- apps/api/tradesentry_api/api.py: cases, uploads, the listing of documents and the completeness, with
-- the repository's part of repository.py.
pub mod Again
pub mod Agreement
pub mod Existing
use Prim.Native.String.{◌++◌ as ◌+◌}
use trade_sentry.Prelude.{
  ℕ, zero, suc, String, Bool, true, false, ◌&&◌, not, Option, none, some, List, [], ◌∷◌, ◌++◌, map,
  find, keep, elem, is_empty, leb, string_eq, ◌==◌, if◌then◌else◌,
}
use trade_sentry.Prelude.Sort.{sorted}
use trade_sentry.Prelude.Text.{is_text, codes, le_codes}
use trade_sentry.Prelude.Decimal.{Decimal}
use trade_sentry.Contracts.Documents.{
  DocumentType, DocumentStatus, DocumentCompleteness, CompletenessStatus, unknown, uploaded,
  letter_of_credit, type_beq, type_eq, type_value, document_types, is_readable, complete,
  incomplete, pending_lc,
}
use trade_sentry.Contracts.Fields.{RequiredDocumentSpec}
use trade_sentry.Contracts.Extraction.{ExtractedFields, lc_fields}
use trade_sentry.Intake.{StoredDocument, Extraction}
use trade_sentry.Intake.Upload.{
  Checked, valid, invalid, MimeType, mime_value, validate_upload, sanitize_filename,
}
use trade_sentry.Investigation.Calls.{first_chars}
use trade_sentry.Review.{CaseRecord, get_case}
use trade_sentry.Api.{
  ApiHost, Request, Stores, Handler, ◌>>=◌, ◌>>◌, pure, abort, modify, gets, admin, require_roles,
  case_or_404, audit, ok, ScanStatus, clean, malicious, unavailable, case_created,
  document_uploaded, completeness_checked, presigned_url_generated,
}

pub record CaseCreate : Type 0 where
  pub case_id : Option String
  pub ibu_id : String

pub record CaseResponse : Type 0 where
  pub case_id : String
  pub ibu_id : String
  pub status : String

-- `UploadFile`
pub record Upload : Type 0 where
  pub filename : Option String
  pub bytes : List ℕ

pub record UploadResponse : Type 0 where
  pub document_id : String
  pub status : String

pub record DocumentResponse : Type 0 where
  pub document_id : String
  pub case_id : String
  pub filename : String
  pub document_type : DocumentType
  pub status : DocumentStatus
  pub overall_confidence : Option Decimal
  pub extraction_flags : List String
  pub view_url : Option String
  pub extraction : Option Extraction
  pub error_code : Option String
  pub advisory : Option String

-- `InMemoryDocumentRepository.create_case`: the case that stands under the identifier, or the new one
abbrev pub create_or_keep : CaseRecord → Option CaseRecord → Handler CaseRecord
create_or_keep c (some existing) = pure existing
create_or_keep c none = λ s. (ok c, record s { cases = s.cases ++ c ∷ [] })

-- `self.documents[document.id] = document`
abbrev pub put_document : StoredDocument → List StoredDocument → List StoredDocument
put_document d [] = d ∷ []
put_document d (x ∷ xs) = let rest = put_document d xs in if x.id == d.id then d ∷ xs else x ∷ rest

abbrev pub get_by_hash :
    (case_id content_hash : String) → List StoredDocument → Option StoredDocument
get_by_hash case_id content_hash =
    find (λ d. (d.case_id == case_id) && (d.content_hash == content_hash))

abbrev pub get_document :
    (case_id document_id : String) → List StoredDocument → Option StoredDocument
get_document case_id document_id ds = elim (find (λ d. d.id == document_id) ds) [
  | none ↦ none
  | some d ↦ if d.case_id == case_id then some d else none
]

-- by the time of creation
unfoldable pub documents_of : (case_id : String) → List StoredDocument → List StoredDocument
documents_of case_id ds =
    sorted (λ a b. leb a.created_at b.created_at) (keep (λ d. d.case_id == case_id) ds)

-- `file.read(n)`
abbrev pub read : ℕ → List ℕ → List ℕ
read zero bytes = []
read (suc n) [] = []
read (suc n) (b ∷ bs) = b ∷ read n bs

abbrev pub case_id_or : Option String → (uuid_case : String) → String
case_id_or none uuid_case = uuid_case
case_id_or (some c) uuid_case = if is_text c then c else uuid_case

abbrev pub checked_or_abort : Checked MimeType → Handler MimeType
checked_or_abort (valid m) = pure m
checked_or_abort (invalid detail status_code) = abort status_code detail

abbrev pub screened : ScanStatus → Handler (Unit {0})
screened clean = pure tt
screened malicious = abort 415 "Document failed malware screening"
screened unavailable = abort 503 "Malware screening is unavailable"

abbrev pub found_or_404 : (detail : String) → {A : Type 0} → Option A → Handler A
found_or_404 detail none = abort 404 detail
found_or_404 detail (some a) = pure a

-- the types of the documents that were read, as a set
unfoldable pub completed_types : List StoredDocument → List DocumentType
completed_types ds = map (λ d. d.document_type) (keep (λ d. is_readable d.status) ds)

abbrev has_extraction : Option Extraction → Bool
has_extraction none = false
has_extraction (some e) = true

-- the first letter of credit that has an extraction
abbrev pub extracted_credit : List StoredDocument → Option StoredDocument
extracted_credit =
    find (λ d. type_beq d.document_type letter_of_credit && has_extraction d.extraction)

abbrev pub all_types : List DocumentType
all_types = keep (λ t. not (type_beq t unknown)) document_types

abbrev pub required_of : List RequiredDocumentSpec → List DocumentType
required_of [] = all_types
required_of (spec ∷ specs) = map (λ x. x.document_type) (keep (λ x. x.required) (spec ∷ specs))

abbrev pub required_by : ExtractedFields → List DocumentType
required_by (lc_fields f) = required_of f.required_documents
required_by _ = all_types

abbrev pub types_required : Option Extraction → List DocumentType
types_required none = all_types
types_required (some e) = required_by e.result.fields

-- `sorted(completed, key=str)`
abbrev pub present_types : List DocumentType → List DocumentType
present_types completed =
    sorted (λ a b. le_codes (codes (type_value a)) (codes (type_value b)))
      (keep (λ t. elem t completed) document_types)

-- what is missing of the types that are required
abbrev pub judged : (completed required : List DocumentType) → DocumentCompleteness
judged completed required =
    let missing = keep (λ t. not (elem t completed)) required in
    record {
      required_types = required;
      present_types = present_types completed;
      missing_types = missing;
      status = if is_empty missing then complete else incomplete;
      can_run_investigation = is_empty missing;
    }

-- the answer of the endpoint `completeness`
abbrev pub with_credit : List DocumentType → Option StoredDocument → DocumentCompleteness
with_credit completed none = record {
  required_types = [];
  present_types = present_types completed;
  missing_types = [];
  status = pending_lc;
  can_run_investigation = false;
}
with_credit completed (some lc) = judged completed (types_required lc.extraction)

unfoldable pub completeness_result : List StoredDocument → DocumentCompleteness
unfolding completed_types
completeness_result ds = with_credit (completed_types ds) (extracted_credit ds)

-- the end of the reference of the audit event
abbrev pub completeness_reference : CompletenessStatus → String
completeness_reference pending_lc = "pending-lc"
completeness_reference complete = "COMPLETE"
completeness_reference incomplete = "INCOMPLETE"

abbrev pub upload_response : (document_id : String) → UploadResponse
upload_response document_id = record { document_id = document_id; status = "UPLOADED" }

abbrev flags_of : Option Extraction → List String
flags_of none = []
flags_of (some e) = e.result.extraction_flags

-- `_response` without the detail, and with it
unfoldable pub summary_response : StoredDocument → DocumentResponse
summary_response d = record {
  document_id = d.id;
  case_id = d.case_id;
  filename = d.filename;
  document_type = d.document_type;
  status = d.status;
  overall_confidence = d.overall_confidence;
  extraction_flags = flags_of d.extraction;
  view_url = none;
  extraction = none;
  error_code = d.error_code;
  advisory = d.advisory;
}

module _ (h : ApiHost) where
  unfoldable pub create_case : Request → CaseCreate → Handler CaseResponse
  create_case r payload = do
    require_roles r.principal (admin ∷ [])
    if payload.ibu_id == r.principal.ibu_id then pure tt else abort 403 "IBU tenant access denied"
    let case_id = case_id_or payload.case_id ("CASE-" + h.upper (first_chars 12 r.uuid))
    existing ← gets (λ s. get_case case_id s.cases)
    c ←
        create_or_keep
          (record { id = case_id; ibu_id = payload.ibu_id; status = "CREATED"; created_at = r.now })
          existing
    audit h r case_created c.id ("case://" + c.id)
    pure (record { case_id = c.id; ibu_id = c.ibu_id; status = c.status })

  -- `deterministic_document_id`
  unfoldable pub deterministic_document_id : (case_id : String) → List ℕ → String
  deterministic_document_id case_id bytes =
      "doc-" + first_chars 24 (h.sha256 (h.encode case_id ++ 0 ∷ bytes))

  -- the document of an upload
  abbrev pub document_for :
      Request → (case_id : String) → Upload → MimeType → List ℕ → StoredDocument
  document_for r case_id file mime_type bytes =
      let document_id = deterministic_document_id case_id bytes in
      let filename = sanitize_filename h.upload_host file.filename mime_type in
      record {
        id = document_id;
        case_id = case_id;
        filename = filename;
        content_hash = h.sha256 bytes;
        mime_type = mime_value mime_type;
        s3_key = "cases/" + (case_id + ("/documents/" + (document_id + ("/" + filename))));
        status = uploaded;
        document_type = unknown;
        overall_confidence = none;
        extraction = none;
        textract_job_id = none;
        error_code = none;
        advisory = none;
        created_at = r.now;
      }

  -- with what `get_by_hash` finds
  abbrev pub store_upload :
      Request → StoredDocument → List ℕ → Option StoredDocument → Handler UploadResponse
  store_upload r d bytes (some existing) = pure (upload_response existing.id)
  store_upload r d bytes none = do
    modify (λ s. record s { objects = s.objects ++ (d.s3_key, bytes) ∷ [] })
    modify (λ s. record s { documents = put_document d s.documents })
    audit h r document_uploaded d.case_id ("document://" + d.id)
    modify (λ s. record s { tasks = s.tasks ++ (d, bytes) ∷ [] })
    pure (upload_response d.id)

  unfoldable pub upload_document : Request → (case_id : String) → Upload → Handler UploadResponse
  upload_document r case_id file = do
    _ ← case_or_404 r.principal case_id
    require_roles r.principal (admin ∷ [])
    let bytes = read (suc h.max_upload_bytes) file.bytes
    mime_type ← checked_or_abort (validate_upload h.upload_host bytes h.max_upload_bytes)
    screened (h.scan bytes)
    existing ← gets (λ s. get_by_hash case_id (h.sha256 bytes) s.documents)
    store_upload r (document_for r case_id file mime_type bytes) bytes existing

  unfoldable pub detail_response : Request → StoredDocument → Handler DocumentResponse
  unfolding summary_response
  detail_response r d = do
    audit h r presigned_url_generated d.case_id ("s3://key/" + d.s3_key)
    pure (record (summary_response d) {
      view_url = some (h.presigned_url d.s3_key);
      extraction = d.extraction;
    })

  unfoldable pub list_documents : Request → (case_id : String) → Handler (List DocumentResponse)
  list_documents r case_id = do
    _ ← case_or_404 r.principal case_id
    gets (λ s. map summary_response (documents_of case_id s.documents))

  unfoldable pub get_document_detail :
      Request → (case_id document_id : String) → Handler DocumentResponse
  get_document_detail r case_id document_id = do
    _ ← case_or_404 r.principal case_id
    found ← gets (λ s. get_document case_id document_id s.documents)
    d ← found_or_404 "Document not found" found
    detail_response r d

  unfoldable pub completeness : Request → (case_id : String) → Handler DocumentCompleteness
  completeness r case_id = do
    _ ← case_or_404 r.principal case_id
    result ← gets (λ s. completeness_result (documents_of case_id s.documents))
    audit h r completeness_checked case_id
        ("completeness://" + (case_id + ("/" + completeness_reference result.status)))
    pure result
