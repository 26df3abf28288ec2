-- ===== src/Api/Routes.antt =====
-- The routers of apps/api/tradesentry_api/main.py: ten of the requests about a case.
pub mod Tenancy
use trade_sentry.Prelude.{String, Option, List}
use trade_sentry.Contracts.Documents.{DocumentCompleteness}
use trade_sentry.Compliance.Model.{ComplianceResult}
use trade_sentry.Dna.{TransactionDna}
use trade_sentry.Investigation.Model.{InvestigationResponse}
use trade_sentry.Review.{SettlementReadiness}
use trade_sentry.Api.{ApiHost, Request, Handler}
use trade_sentry.Api.Documents.{
  Upload, UploadResponse, DocumentResponse, upload_document, list_documents, get_document_detail,
  completeness,
}
use trade_sentry.Api.Compliance.{ComplianceRunRequest, run_compliance, get_compliance}
use trade_sentry.Api.Matching.{create_transaction_dna, get_transaction_dna}
use trade_sentry.Api.Dashboard.{get_settlement_readiness, read_investigation}

pub data CaseRequest : Type 0 where
  post_document : Upload → CaseRequest
  get_documents : CaseRequest
  get_one_document : (document_id : String) → CaseRequest
  get_completeness : CaseRequest
  post_compliance : Option ComplianceRunRequest → CaseRequest
  get_compliance_result : CaseRequest
  post_transaction_dna : CaseRequest
  get_dna_result : CaseRequest
  get_readiness : CaseRequest
  get_investigation_result : CaseRequest

abbrev pub ResponseOf : CaseRequest → Type 0
ResponseOf (post_document file) = UploadResponse
ResponseOf get_documents = List DocumentResponse
ResponseOf (get_one_document document_id) = DocumentResponse
ResponseOf get_completeness = DocumentCompleteness
ResponseOf (post_compliance payload) = ComplianceResult
ResponseOf get_compliance_result = ComplianceResult
ResponseOf post_transaction_dna = TransactionDna
ResponseOf get_dna_result = TransactionDna
ResponseOf get_readiness = SettlementReadiness
ResponseOf get_investigation_result = InvestigationResponse

-- the handler of a request's path
unfoldable pub respond :
    ApiHost → Request → (case_id : String) → (q : CaseRequest) → Handler (ResponseOf q)
respond h r case_id (post_document file) = upload_document h r case_id file
respond h r case_id get_documents = list_documents h r case_id
respond h r case_id (get_one_document document_id) = get_document_detail h r case_id document_id
respond h r case_id get_completeness = completeness h r case_id
respond h r case_id (post_compliance payload) = run_compliance h r case_id payload
respond h r case_id get_compliance_result = get_compliance h r case_id
respond h r case_id post_transaction_dna = create_transaction_dna h r case_id
respond h r case_id get_dna_result = get_transaction_dna h r case_id
respond h r case_id get_readiness = get_settlement_readiness r case_id
respond h r case_id get_investigation_result = read_investigation r case_id
