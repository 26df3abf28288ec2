-- ===== src/Review.antt =====
-- models/review.py, the in-memory review store and repository, and `submit_review` of
-- apps/api/tradesentry_api/dashboard_api.py with the checks of auth.py.
pub mod Store
pub mod Replay
pub mod Status
pub mod Authority
use Prim.Native.String.{◌++◌ as ◌+◌}
use trade_sentry.Fraud.Common.{is_within}
use trade_sentry.Prelude.Text.{codes}
use trade_sentry.Prelude.{
  ℕ, String, Bool, true, false, ◌&&◌, ◌||◌, Option, none, some, List, [], ◌∷◌, ◌++◌, any, find,
  keep, last, elem, length, ltb, string_eq, ◌==◌, if◌then◌else◌,
}

pub data ReviewDecision : Type 0 where
  approve hold escalate request_more_evidence : ReviewDecision

abbrev pub decision_beq : ReviewDecision → ReviewDecision → Bool
decision_beq approve approve = true
decision_beq hold hold = true
decision_beq escalate escalate = true
decision_beq request_more_evidence request_more_evidence = true
decision_beq _ _ = false

-- `decision.value`
abbrev pub decision_value : ReviewDecision → String
decision_value approve = "APPROVE"
decision_value hold = "HOLD"
decision_value escalate = "ESCALATE"
decision_value request_more_evidence = "REQUEST_MORE_EVIDENCE"

-- A request that the model's validators have let through.
pub record ReviewRequest : Type 0 where
  pub decision : ReviewDecision
  pub comment : String

pub record OfficerDecision : Type 0 where
  pub decision_id : String
  pub case_id : String
  pub decision : ReviewDecision
  pub comment : String
  pub officer_id : String
  pub officer_role : String
  pub idempotency_key_hash : String
  pub created_at : ℕ

pub record Principal : Type 0 where
  pub officer_id : String
  pub role : String
  pub ibu_id : String

pub record CaseRecord : Type 0 where
  pub id : String
  pub ibu_id : String
  pub status : String
  pub created_at : ℕ

pub data ReviewEventType : Type 0 where
  officer_decision settlement_status_changed : ReviewEventType

-- The audit event's fields that the handler gives.
pub record ReviewEvent : Type 0 where
  pub event_type : ReviewEventType
  pub case_id : String
  pub payload_ref : String

-- What the stores hold that the handler uses.
pub record Desk : Type 0 where
  pub cases : List CaseRecord
  pub decisions : List OfficerDecision
  pub events : List ReviewEvent

-- A request with what the server adds to it: who sends it, a fresh identifier and the time.
pub record Submission : Type 0 where
  pub case_id : String
  pub payload : ReviewRequest
  pub idempotency_key : String
  pub principal : Principal
  pub uuid : String
  pub now : ℕ

pub data Reply : Type 0 where
  created : OfficerDecision → Reply
  http_error : (status_code : ℕ) → (detail : String) → Reply

abbrev pub officer : String
officer = "OFFICER"

abbrev pub view_roles : List String
view_roles = officer ∷ "COMPLIANCE_MANAGER" ∷ "AUDITOR" ∷ "ADMIN" ∷ []

-- `require_roles`
abbrev pub has_role : Principal → List String → Bool
has_role p roles = elem p.role roles

abbrev pub get_case : String → List CaseRecord → Option CaseRecord
get_case case_id = find (λ c. c.id == case_id)

abbrev pub update_case_status : (case_id status : String) → List CaseRecord → List CaseRecord
update_case_status case_id status [] = []
update_case_status case_id status (c ∷ cs) =
    let rest = update_case_status case_id status cs in
    if c.id == case_id then record c { status = status } ∷ cs else c ∷ rest

abbrev pub list_for_case : String → List OfficerDecision → List OfficerDecision
list_for_case case_id = keep (λ d. d.case_id == case_id)

abbrev pub get_by_idempotency :
    (case_id key_hash : String) → List OfficerDecision → Option OfficerDecision
get_by_idempotency case_id key_hash =
    find (λ d. (d.case_id == case_id) && (d.idempotency_key_hash == key_hash))

abbrev pub save : OfficerDecision → List OfficerDecision → List OfficerDecision
save d ds = ds ++ d ∷ []

-- the case's status after a decision
abbrev pub status_after : ReviewDecision → String
status_after approve = "READY FOR BANK SETTLEMENT WORKFLOW"
status_after hold = "HOLD — OFFICER DECISION"
status_after escalate = "ESCALATED — SENIOR COMPLIANCE"
status_after request_more_evidence = "PENDING — MORE EVIDENCE"

pub record SettlementReadiness : Type 0 where
  pub case_id : String
  pub status : String
  pub approved : Bool
  pub reason : String
  pub latest_decision : Option ReviewDecision

abbrev no_approval : String
no_approval = "Bank settlement workflow cannot proceed until an officer approval is recorded."

abbrev held_because : (case_id reason : String) → Option ReviewDecision → SettlementReadiness
held_because case_id reason latest = record {
  case_id = case_id;
  status = "HOLD";
  approved = false;
  reason = reason;
  latest_decision = latest;
}

-- by the latest decision
abbrev pub readiness_after : (case_id : String) → Option OfficerDecision → SettlementReadiness
readiness_after case_id none = held_because case_id no_approval none
readiness_after case_id (some d) = elim d.decision [
  | approve ↦ record {
    case_id = case_id;
    status = "READY FOR BANK SETTLEMENT WORKFLOW";
    approved = true;
    reason = "An authenticated officer approved this case after reviewing the evidence.";
    latest_decision = some approve;
  }
  | hold ↦ held_because case_id "The latest officer decision placed this case on hold." (some hold)
  | escalate ↦
      held_because case_id "The case is escalated to senior compliance review." (some escalate)
  | request_more_evidence ↦
      held_because case_id "Additional evidence is required before approval."
        (some request_more_evidence)
]

-- `_readiness`
unfoldable pub readiness : (case_id : String) → List OfficerDecision → SettlementReadiness
readiness case_id decisions = readiness_after case_id (last (list_for_case case_id decisions))

-- the status that `_dashboard_case` shows
abbrev pub display_status : SettlementReadiness → CaseRecord → String
display_status r c = elim r.latest_decision [
  | none ↦ "HOLD — AWAITING OFFICER"
  | some d ↦ if r.approved then r.status else c.status
]

-- `ReviewRequest` with its validators: a comment of 10 to 4000 characters, stripped, and at least 10
-- then; `none` is the refusal.
unfoldable pub review_request :
    (strip : String → String) → ReviewDecision → (comment : String) → Option ReviewRequest
review_request strip decision comment =
    let cleaned = strip comment in
    if ltb (length (codes comment)) 10 || ltb 4000 (length (codes comment))
    then none
    else if ltb (length (codes cleaned)) 10
    then none
    else some (record { decision = decision; comment = cleaned })

-- the request repeats the decision
abbrev pub is_repeated : OfficerDecision → ReviewRequest → Bool
is_repeated d r = decision_beq d.decision r.decision && (d.comment == r.comment)

-- SHA-256 of a text, and `lower`.
pub record ReviewHost : Type 0 where
  pub sha256 : String → String
  pub lower : String → String

abbrev pub sensitive_marks : List String
sensitive_marks =
    "http://" ∷ "https://" ∷ "x-amz-signature" ∷ "bearer " ∷ "api_key" ∷ "secret=" ∷ []

-- `reference_must_not_be_sensitive` of the audit's events
abbrev pub has_sensitive_mark : (lower : String → String) → (payload_ref : String) → Bool
has_sensitive_mark lower payload_ref =
    any (λ mark. is_within mark (lower payload_ref)) sensitive_marks

module _ (h : ReviewHost) where
  open h use {sha256, lower}

  abbrev pub decision_of : Submission → OfficerDecision
  decision_of s = record {
    decision_id = "decision-" + s.uuid;
    case_id = s.case_id;
    decision = s.payload.decision;
    comment = s.payload.comment;
    officer_id = s.principal.officer_id;
    officer_role = s.principal.role;
    idempotency_key_hash = sha256 s.idempotency_key;
    created_at = s.now;
  }

  abbrev pub decision_event : Submission → ReviewEvent
  decision_event s = record {
    event_type = officer_decision;
    case_id = s.case_id;
    payload_ref =
        "decision://"
        + (("decision-" + s.uuid)
            + ("/"
                + (decision_value s.payload.decision
                    + ("/comment-sha256-" + sha256 s.payload.comment))));
  }

  abbrev pub status_event : Submission → ReviewEvent
  status_event s = record {
    event_type = settlement_status_changed;
    case_id = s.case_id;
    payload_ref = "case-status://" + (s.case_id + ("/" + decision_value s.payload.decision));
  }

  abbrev pub is_refused : ReviewEvent → Bool
  is_refused e = has_sensitive_mark lower e.payload_ref

  -- the events one after the other; the first one that the model refuses ends the handler
  abbrev pub recorded : (first second : ReviewEvent) → List ReviewEvent
  recorded first second =
      if is_refused first then [] else if is_refused second then first ∷ [] else first ∷ second ∷ []

  -- the answer once the decision is saved
  abbrev pub reply_of : Submission → Reply
  reply_of s =
      if is_refused (decision_event s) || is_refused (status_event s)
      then http_error 500 "The request could not be completed."
      else created (decision_of s)

  -- the decision is saved, the case's status set and both are put on record
  unfoldable pub record_decision : Submission → Desk → Desk
  record_decision s d = record {
    cases = update_case_status s.case_id (status_after s.payload.decision) d.cases;
    decisions = save (decision_of s) d.decisions;
    events = d.events ++ recorded (decision_event s) (status_event s);
  }

  -- with what `get_by_idempotency` finds
  abbrev pub with_existing : Submission → Desk → Option OfficerDecision → Reply × Desk
  with_existing s d (some x) =
      if is_repeated x s.payload
      then (created x, d)
      else (http_error 409 "Idempotency key was already used", d)
  with_existing s d none = (reply_of s, record_decision s d)

  -- `_case_for_principal` with what `get_case` finds
  abbrev pub with_case : Submission → Desk → Option CaseRecord → Reply × Desk
  with_case s d none = (http_error 404 "Case not found", d)
  with_case s d (some c) =
      if c.ibu_id == s.principal.ibu_id
      then with_existing s d (get_by_idempotency s.case_id (sha256 s.idempotency_key) d.decisions)
      else (http_error 403 "IBU tenant access denied", d)

  unfoldable pub submit_review : Submission → Desk → Reply × Desk
  submit_review s d =
      if has_role s.principal view_roles
      then if has_role s.principal (officer ∷ [])
        then with_case s d (get_case s.case_id d.cases)
        else (http_error 403 "Role access denied", d)
      else (http_error 403 "Role access denied", d)

  -- one submission after the other
  unfoldable pub submit_all : List Submission → Desk → Desk
  submit_all [] d = d
  submit_all (s ∷ ss) d = submit_all ss (submit_review s d).1
