-- ===== src/Tests/Api.antt =====
-- The API at concrete stores and requests.
use trade_sentry.Prelude.{ℕ, ◌≤◌, ◌≡◌, refl, false, none, some, String, [], ◌∷◌, map}
use trade_sentry.Prelude.Int.{pos, ◌-ℤ◌}
use trade_sentry.Prelude.Sort.{sorted}
use trade_sentry.Prelude.Text.{codes}
use trade_sentry.Prelude.Decimal.{decimal}
use trade_sentry.Contracts.Documents.{letter_of_credit, extracted, partially}
use trade_sentry.Contracts.Extraction.{ExtractionResult, other_fields}
use trade_sentry.Compliance.Model.{ComplianceResult}
use trade_sentry.Compliance.Engine.{evaluate_compliance}
use trade_sentry.Intake.{StoredDocument}
use trade_sentry.Intake.Upload.{UploadHost, validate_upload, detect_mime}
use trade_sentry.Investigation.Nodes.{extractions_of}
use trade_sentry.Investigation.Completeness.{completeness_of, pending}
use trade_sentry.Review.{CaseRecord, Principal}
use trade_sentry.Api.{ApiHost, Request, Stores, ok, clean, case_or_404, audit, is_sensitive}
use trade_sentry.Api.Documents.{
  Upload, UploadResponse, upload_document, deterministic_document_id, documents_of, completed_types,
  completeness_result, judged, all_types,
}
use trade_sentry.Api.Documents.Again.{upload_document-again}
use trade_sentry.Api.Documents.Agreement.{
  summaries, record_of, completeness_result-completeness_of, completeness_result-unread_credit,
}
use trade_sentry.Api.Compliance.{
  run_compliance, get_compliance, build_compliance_facts, facts_of, default_request,
}
use trade_sentry.Api.Compliance.Stored.{get_compliance-run_compliance}
use trade_sentry.Api.Routes.{respond, get_completeness}
use trade_sentry.Api.Routes.Tenancy.{IsRefused, respond-IsRefused}
use trade_sentry.Api.Access.{
  AuthHost, Settings, Claims, Incoming, Gate, security_middleware, authenticate, allow,
}
use trade_sentry.Api.Access.Identity.{IsAuthenticated, security_middleware-IsAuthenticated}
use trade_sentry.Api.Access.Limits.{allowed_calls, allowed_calls-le}
use trade_sentry.Tests.Data.{plain_host, plain_match_host, credit_extraction, credit_fields}
use trade_sentry.Tests.Dna.{dna_host}

abbrev upload_host : UploadHost
upload_host = record { pdf_pages = λ b. some 1; path_name = λ s. s; lower = λ s. s }

abbrev api_host : ApiHost
api_host = record {
  sha256 = λ b. "digest";
  encode = codes;
  lower = λ s. s;
  upper = λ s. s;
  str = λ d. "1";
  scan = λ b. clean;
  presigned_url = λ k. k;
  max_upload_bytes = 10;
  upload_host = upload_host;
  rule_host = plain_host;
  dna_host = dna_host;
  match_host = plain_match_host;
}

abbrev one_case : CaseRecord
one_case = record { id = "C-1"; ibu_id = "SG"; status = "CREATED"; created_at = 0 }

-- a letter of credit that was read
abbrev credit_paper : StoredDocument
credit_paper = record {
  id = "D1";
  case_id = "C-1";
  filename = "lc_1.pdf";
  content_hash = "other";
  mime_type = "application/pdf";
  s3_key = "k";
  status = extracted;
  document_type = letter_of_credit;
  overall_confidence = none;
  extraction = some (record {
    result = credit_extraction;
    confidence = [];
    overall_confidence = decimal 9 1;
    processing_status = extracted;
  });
  textract_job_id = none;
  error_code = none;
  advisory = none;
  created_at = 0;
}

-- one whose fields could not be validated
abbrev raw_extraction : ExtractionResult
raw_extraction = record credit_extraction { fields = other_fields }

abbrev unread_paper : StoredDocument
unread_paper = record credit_paper {
  status = partially;
  extraction = some (record {
    result = raw_extraction;
    confidence = [];
    overall_confidence = decimal 9 1;
    processing_status = partially;
  });
}

abbrev stores : Stores
stores = record {
  cases = one_case ∷ [];
  documents = credit_paper ∷ [];
  objects = [];
  compliance = [];
  dnas = [];
  registry = [];
  investigations = [];
  decisions = [];
  events = [];
  tasks = [];
}

abbrev admin_of : (ibu_id : String) → Principal
admin_of ibu_id = record { officer_id = "A-1"; role = "ADMIN"; ibu_id = ibu_id }

abbrev request_of : (ibu_id : String) → ℕ → Request
request_of ibu_id now = record {
  principal = admin_of ibu_id;
  client_host = none;
  user_agent = none;
  now = now;
  uuid = "u";
}

abbrev tiff : String → Upload
tiff name = record { filename = some name; bytes = 73 ∷ 73 ∷ 42 ∷ 0 ∷ [] }

respond-IsRefused_example :
    IsRefused stores (respond api_host (request_of "HK" 1) "C-1" get_completeness stores)
respond-IsRefused_example =
    respond-IsRefused api_host (request_of "HK" 1) "C-1" stores refl get_completeness

abbrev uploaded_as : UploadResponse
uploaded_as = record { document_id = "doc-digest"; status = "UPLOADED" }

upload_document-again_example :
    let t = (upload_document api_host (request_of "SG" 1) "C-1" (tiff "a.tiff") stores).1 in
    upload_document api_host (request_of "SG" 2) "C-1" (tiff "b.tiff") t ≡ (ok uploaded_as, t)
unfolding upload_document case_or_404 validate_upload detect_mime audit is_sensitive
    deterministic_document_id
upload_document-again_example =
    upload_document-again api_host (request_of "SG" 1) (request_of "SG" 2) "C-1" (tiff "a.tiff")
      (tiff "b.tiff") stores uploaded_as refl refl refl

completeness_result-completeness_of_example :
    completeness_result (credit_paper ∷ [])
    ≡ completeness_of
        (summaries (credit_paper ∷ []))
        (extractions_of (map record_of (credit_paper ∷ [])))
completeness_result-completeness_of_example =
    completeness_result-completeness_of (credit_paper ∷ []) (refl, tt) refl

completeness_result-unread_credit_example :
    let ds = unread_paper ∷ [] in
    (completeness_of (summaries ds) (extractions_of (map record_of ds)) ≡ pending (summaries ds))
    × (completeness_result ds ≡ judged (completed_types ds) all_types)
completeness_result-unread_credit_example =
    completeness_result-unread_credit (unread_paper ∷ []) unread_paper (refl, tt) refl refl

abbrev evaluation : ComplianceResult
evaluation =
    evaluate_compliance plain_host
      (facts_of "C-1" (documents_of "C-1" stores.documents) default_request 1 credit_fields)

get_compliance-run_compliance_example :
    let t = (run_compliance api_host (request_of "SG" 1) "C-1" none stores).1 in
    get_compliance api_host (request_of "SG" 2) "C-1" t ≡ (ok evaluation, t)
unfolding run_compliance case_or_404 build_compliance_facts documents_of facts_of audit is_sensitive
    sorted
get_compliance-run_compliance_example =
    get_compliance-run_compliance api_host (request_of "SG" 1) "C-1" none stores evaluation
      (request_of "SG" 2) refl refl

abbrev claims : Claims
claims = record {
  officer_id = "O-1";
  role = "AUDITOR";
  ibu_id = "SG";
  token_type = "access";
  iat = pos 100;
  exp = pos 700;
}

abbrev auth_host : AuthHost
auth_host = record { strip = λ s. s; upper = λ s. s; lower = λ s. s; decode = λ t k. some claims }

abbrev settings : Settings
settings = record {
  jwt_public_key = some "key";
  jwt_access_ttl_seconds = 3600;
  rate_limit_ip_per_minute = 100;
  rate_limit_user_per_minute = 200;
  rate_limit_upload_per_minute = 10;
}

abbrev incoming : Incoming
incoming = record {
  path = "/cases";
  is_post = false;
  authorization = some "Bearer t";
  client_host = none;
  now = 60;
}

abbrev auditor : Principal
auditor = record { officer_id = "O-1"; role = "AUDITOR"; ibu_id = "SG" }

abbrev gate : Gate
gate = record { windows = []; auth_failures = [] }

security_middleware-IsAuthenticated_example :
    (p : Principal) × (some auditor ≡ some p) × IsAuthenticated auth_host settings incoming p
unfolding security_middleware authenticate allow ◌-ℤ◌
security_middleware-IsAuthenticated_example =
    security_middleware-IsAuthenticated auth_host settings incoming gate (some auditor) refl refl

allowed_calls-le_example : allowed_calls "a" 1 60 (("a", 61) ∷ ("b", 62) ∷ ("a", 63) ∷ []) [] ≤ 1
allowed_calls-le_example =
    allowed_calls-le "a" 1 60 1 (("a", 61) ∷ ("b", 62) ∷ ("a", 63) ∷ []) []
      (refl, (refl, (refl, tt)))
