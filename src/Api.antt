-- ===== src/Api.antt =====
-- The HTTP API of apps/api/tradesentry_api over its in-memory stores: the stores, the audit events
-- and what a handler is.
pub mod Documents
pub mod Compliance
pub mod Matching
pub mod Dashboard
pub mod Routes
pub mod Access
use Prim.Native.String.{◌++◌ as ◌+◌}
use trade_sentry.Prelude.{
  ℕ, String, Bool, true, false, not, Option, none, some, List, [], ◌∷◌, ◌++◌, any, string_eq, ◌==◌,
  if◌then◌else◌,
}
use trade_sentry.Prelude.Decimal.{Decimal}
use trade_sentry.Compliance.Finding.{Host}
use trade_sentry.Compliance.Model.{ComplianceResult}
use trade_sentry.Dna.{TransactionDna}
use trade_sentry.Dna.Normalization.{DnaHost}
use trade_sentry.CrossIbu.Model.{MatchHost}
use trade_sentry.CrossIbu.Registry.{Registry}
use trade_sentry.Fraud.Common.{is_within}
use trade_sentry.Intake.{StoredDocument}
use trade_sentry.Intake.Upload.{UploadHost}
use trade_sentry.Investigation.Calls.{first_chars}
use trade_sentry.Investigation.Model.{InvestigationResponse}
use trade_sentry.Review.{
  CaseRecord, OfficerDecision, Principal, get_case, has_role, has_sensitive_mark,
}

pub data ScanStatus : Type 0 where
  clean malicious unavailable : ScanStatus

pub data AuditEventType : Type 0 where
  case_created document_uploaded completeness_checked ucp_rule_executed : AuditEventType
  transaction_dna_built cross_ibu_queried cross_ibu_registered : AuditEventType
  presigned_url_generated auth_failure : AuditEventType

-- `AuditEvent` without its identifier, correlation and time.
pub record AuditEvent : Type 0 where
  pub case_id : Option String
  pub ibu_id : String
  pub actor_id : String
  pub actor_role : String
  pub event_type : AuditEventType
  pub payload_ref : String
  pub ip_address : String
  pub user_agent : String

-- What the services keep: a dictionary is the list of its values in the order of insertion.
pub record Stores : Type 0 where
  pub cases : List CaseRecord
  pub documents : List StoredDocument
  -- the uploads to the storage, by their keys
  pub objects : List (String × List ℕ)
  pub compliance : List ComplianceResult
  pub dnas : List TransactionDna
  pub registry : Registry
  pub investigations : List InvestigationResponse
  pub decisions : List OfficerDecision
  pub events : List AuditEvent
  -- the documents handed to `processor.process` in the background
  pub tasks : List (StoredDocument × List ℕ)

-- Who sends a request, from where, and what the server adds: the time and a fresh identifier.
pub record Request : Type 0 where
  pub principal : Principal
  pub client_host : Option String
  pub user_agent : Option String
  pub now : ℕ
  pub uuid : String

-- What the handlers take from outside: SHA-256 and `encode`, `lower` and `upper`, the scanner, the
-- addresses that the storage signs, and the hosts of the components.
pub record ApiHost : Type 0 where
  pub sha256 : List ℕ → String
  pub encode : String → List ℕ
  pub lower : String → String
  pub upper : String → String
  pub str : Decimal → String
  pub scan : List ℕ → ScanStatus
  pub presigned_url : (key : String) → String
  pub max_upload_bytes : ℕ
  pub upload_host : UploadHost
  pub rule_host : Host
  pub dna_host : DnaHost
  pub match_host : MatchHost

-- A response, or the `HTTPException` of a handler; 500 is the answer to any other exception.
pub data Answer {ℓ} (A : Type ℓ) : Type ℓ where
  ok : A → Answer A
  http_error : (status_code : ℕ) → (detail : String) → Answer A

abbrev pub Handler {ℓ} : Type ℓ → Type ℓ
Handler A = Stores → Answer A × Stores

abbrev pub continue {ℓ κ} : {A : Type ℓ} {B : Type κ} → Answer A → (A → Handler B) → Handler B
continue (ok a) f s = f a s
continue (http_error status detail) f s = (http_error status detail, s)

infixl 5 ◌>>=◌ ◌>>◌
abbrev pub ◌>>=◌ {ℓ κ} : {A : Type ℓ} {B : Type κ} → Handler A → (A → Handler B) → Handler B
(m >>= f) s = continue (m s).0 f (m s).1

abbrev pub ◌>>◌ {ℓ} : {B : Type ℓ} → Handler (Unit {0}) → Handler B → Handler B
m >> k = m >>= λ _. k

abbrev pub pure {ℓ} : {A : Type ℓ} → A → Handler A
pure a s = (ok a, s)

abbrev pub abort {ℓ} : {A : Type ℓ} → (status_code : ℕ) → (detail : String) → Handler A
abort status detail s = (http_error status detail, s)

abbrev pub modify : (Stores → Stores) → Handler (Unit {0})
modify f s = (ok tt, f s)

-- a value that is read from the stores
abbrev pub gets {ℓ} : {A : Type ℓ} → (Stores → A) → Handler A
gets f s = (ok (f s), s)

abbrev pub when : Bool → Handler (Unit {0}) → Handler (Unit {0})
when b m s = if b then m s else (ok tt, s)

abbrev pub admin : String
admin = "ADMIN"

-- `require_roles`
abbrev pub require_roles : Principal → List String → Handler (Unit {0})
require_roles p roles = when (not (has_role p roles)) (abort 403 "Role access denied")

abbrev pub own_or_abort : Principal → Option CaseRecord → Handler CaseRecord
own_or_abort p none = abort 404 "Case not found"
own_or_abort p (some c) =
    λ s. if c.ibu_id == p.ibu_id then (ok c, s) else (http_error 403 "IBU tenant access denied", s)

-- `_case_or_404`, `_authorize` and `_case_for_principal`
unfoldable pub case_or_404 : Principal → (case_id : String) → Handler CaseRecord
case_or_404 p case_id s = own_or_abort p (get_case case_id s.cases) s

abbrev pub or_unknown : Option String → String
or_unknown none = "unknown"
or_unknown (some t) = t

module _ (h : ApiHost) where
  -- `reference_must_not_be_sensitive`
  unfoldable pub is_sensitive : (payload_ref : String) → Bool
  is_sensitive payload_ref = has_sensitive_mark h.lower payload_ref

  unfoldable pub event_from_request :
      Request → AuditEventType → (case_id : Option String) → (payload_ref : String) → AuditEvent
  event_from_request r event_type case_id payload_ref = record {
    case_id = case_id;
    ibu_id = r.principal.ibu_id;
    actor_id = r.principal.officer_id;
    actor_role = r.principal.role;
    event_type = event_type;
    payload_ref = payload_ref;
    ip_address = "sha256:" + first_chars 24 (h.sha256 (h.encode (or_unknown r.client_host)));
    user_agent = first_chars 160 (or_unknown r.user_agent);
  }

  -- `audit_store.record(event_from_request(...))`; the model refuses a sensitive reference
  unfoldable pub audit :
      Request → AuditEventType → (case_id payload_ref : String) → Handler (Unit {0})
  unfolding event_from_request
  audit r event_type case_id payload_ref s =
      if is_sensitive payload_ref
      then (http_error 500 "The request could not be completed.", s)
      else (
        ok tt,
        record s {
          events = s.events ++ event_from_request r event_type (some case_id) payload_ref ∷ [];
        },
      )
