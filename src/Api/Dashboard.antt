-- ===== src/Api/Dashboard.antt =====
-- apps/api/tradesentry_api/dashboard_api.py: the listing of the cases and the readiness of one;
-- investigation_api.py and investigation_store.py: the result of an investigation; audit_api.py.
use trade_sentry.Prelude.{
  ℕ, String, Bool, true, false, ◌&&◌, Option, none, some, List, [], ◌∷◌, find, keep, leb, string_eq,
  ◌==◌, if◌then◌else◌,
}
use trade_sentry.Prelude.Sort.{sorted}
use trade_sentry.Prelude.Text.{is_text}
use trade_sentry.Dna.{TransactionDna}
use trade_sentry.Fraud.Common.{is_within}
use trade_sentry.Investigation.Model.{
  RiskBand, low, medium, high, InvestigationState, InvestigationResponse,
}
use trade_sentry.Review.{CaseRecord, SettlementReadiness, readiness, display_status, view_roles}
use trade_sentry.Api.{
  ApiHost, Request, Stores, Handler, ◌>>=◌, ◌>>◌, pure, abort, gets, admin, require_roles,
  case_or_404, AuditEvent,
}
use trade_sentry.Api.Documents.{found_or_404}

pub record DashboardCase : Type 0 where
  pub case_id : String
  pub ibu_id : String
  pub status : String
  pub risk_band : Option RiskBand
  pub risk_score : Option ℕ
  pub applicant : Option String
  pub beneficiary : Option String
  pub amount : Option String
  pub currency : Option String
  pub created_at : ℕ
  pub settlement_readiness : SettlementReadiness

-- The filters of the listing.
pub record CaseFilter : Type 0 where
  pub ibu_id : Option String
  pub risk_band : Option String
  pub status : Option String
  pub created_from : Option ℕ
  pub created_to : Option ℕ

-- `band.value`
abbrev pub band_value : RiskBand → String
band_value low = "LOW"
band_value medium = "MEDIUM"
band_value high = "HIGH"

-- `a.x if a is not None else None`
abbrev pub then_read : {A B : Type 0} → (A → Option B) → Option A → Option B
then_read f none = none
then_read f (some a) = f a

-- `a or b`
abbrev pub text_or : Option String → Option String → Option String
text_or none b = b
text_or (some a) b = if is_text a then some a else b

-- a bound that is not given lets everything pass
abbrev pub passes : {A : Type 0} → (A → Bool) → Option A → Bool
passes test none = true
passes test (some a) = test a

-- `InvestigationStore.get`
abbrev pub get_investigation :
    (case_id : String) → List InvestigationResponse → Option InvestigationResponse
get_investigation case_id = find (λ r. r.state.case_id == case_id)

abbrev state_of : Option InvestigationResponse → Option InvestigationState
state_of none = none
state_of (some r) = some r.state

-- by the time of creation, the newest first
unfoldable pub newest_first : List CaseRecord → List CaseRecord
newest_first = sorted (λ a b. leb b.created_at a.created_at)

module _ (h : ApiHost) where
  abbrev shown_value : TransactionDna → Option String
  shown_value dna = then_read (λ v. some (h.str v)) dna.raw_invoice_value

  -- with the state of the investigation, and the readiness
  abbrev pub case_with :
      Option InvestigationState → SettlementReadiness → CaseRecord → DashboardCase
  case_with state ready c =
      let dna = then_read (λ s. s.transaction_dna) state in
      record {
        case_id = c.id;
        ibu_id = c.ibu_id;
        status = display_status ready c;
        risk_band = then_read (λ s. s.risk_band) state;
        risk_score = then_read (λ s. s.risk_score) state;
        applicant = then_read (λ d. text_or d.importer_normalized d.raw_importer) dna;
        beneficiary = then_read (λ d. text_or d.exporter_normalized d.raw_exporter) dna;
        amount = then_read shown_value dna;
        currency = then_read (λ d. d.raw_currency) dna;
        created_at = c.created_at;
        settlement_readiness = ready;
      }

  unfoldable pub dashboard_case : Stores → CaseRecord → DashboardCase
  dashboard_case s c =
      case_with (state_of (get_investigation c.id s.investigations)) (readiness c.id s.decisions) c

  abbrev has_band : (band : String) → Option RiskBand → Bool
  has_band band none = false
  has_band band (some b) = band_value b == h.upper band

  -- the filters after that of the IBU
  unfoldable pub is_wanted : CaseFilter → DashboardCase → Bool
  is_wanted f item =
      passes (λ band. has_band band item.risk_band) f.risk_band
      && (passes (λ status. is_within (h.upper status) (h.upper item.status)) f.status
          && (passes (λ from. leb from item.created_at) f.created_from
              && passes (λ to. leb item.created_at to) f.created_to))

  -- the loop over the cases
  unfoldable pub list_own :
      (ibu_id : String) → CaseFilter → Stores → List CaseRecord → List DashboardCase
  list_own ibu_id f s [] = []
  list_own ibu_id f s (c ∷ cs) =
      let rest = list_own ibu_id f s cs in
      if c.ibu_id == ibu_id
      then if is_wanted f (dashboard_case s c) then dashboard_case s c ∷ rest else rest
      else rest

  unfoldable pub list_cases : Request → CaseFilter → Handler (List DashboardCase)
  unfolding newest_first
  list_cases r f = do
    require_roles r.principal view_roles
    if passes (λ ibu. ibu == r.principal.ibu_id) f.ibu_id
        then pure tt
        else abort 403 "IBU tenant access denied"
    gets (λ s. list_own r.principal.ibu_id f s (newest_first s.cases))

unfoldable pub get_settlement_readiness : Request → (case_id : String) → Handler SettlementReadiness
get_settlement_readiness r case_id = do
  require_roles r.principal view_roles
  _ ← case_or_404 r.principal case_id
  gets (λ s. readiness case_id s.decisions)

-- `get_investigation` of the API
unfoldable pub read_investigation : Request → (case_id : String) → Handler InvestigationResponse
read_investigation r case_id = do
  _ ← case_or_404 r.principal case_id
  found ← gets (λ s. get_investigation case_id s.investigations)
  found_or_404 "Investigation not found" found

-- `list_events` for the principal
unfoldable pub list_audit_events : Request → Handler (List AuditEvent)
list_audit_events r = do
  require_roles r.principal ("AUDITOR" ∷ admin ∷ [])
  gets (λ s.
      if r.principal.role == admin
      then s.events
      else keep (λ e. e.ibu_id == r.principal.ibu_id) s.events)
