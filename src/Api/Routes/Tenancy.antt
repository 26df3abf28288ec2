-- ===== src/Api/Routes/Tenancy.antt =====
-- Requests about a case that is not the IBU's own.
use trade_sentry.Prelude.{
  ℕ, String, ◌≡◌, refl, Bool, false, Option, none, some, List, [], ◌∷◌, Bool-cases, inl, inr,
  string_eq, ◌==◌,
}
use trade_sentry.Review.{CaseRecord, Principal, get_case, has_role, view_roles}
use trade_sentry.Api.{
  ApiHost, Request, Stores, Answer, ok, http_error, admin, own_or_abort, case_or_404,
}
use trade_sentry.Api.Documents.{upload_document, list_documents, get_document_detail, completeness}
use trade_sentry.Api.Compliance.{run_compliance, get_compliance}
use trade_sentry.Api.Matching.{create_transaction_dna, get_transaction_dna}
use trade_sentry.Api.Dashboard.{get_settlement_readiness, read_investigation}
use trade_sentry.Api.Routes.{
  CaseRequest, respond, post_document, get_documents, get_one_document, get_completeness,
  post_compliance, get_compliance_result, post_transaction_dna, get_dna_result, get_readiness,
  get_investigation_result,
}

-- The case is there and the principal's IBU has it.
abbrev pub is_own : Principal → Option CaseRecord → Bool
is_own p none = false
is_own p (some c) = c.ibu_id == p.ibu_id

-- The answer is an error and the stores are as they were.
abbrev pub IsRefused {ℓ} : {A : Type ℓ} → Stores → Answer A × Stores → Type 0
IsRefused s (ok a, s') = ⊥
IsRefused s (http_error status detail, s') = s' ≡ s

-- The look at such a case ends the handler.
denied :
    (p : Principal) (c : Option CaseRecord) (s : Stores)
    → is_own p c ≡ false
    → (status : ℕ) × (detail : String) × (own_or_abort p c s ≡ (http_error status detail, s))
denied p none s e = (404, "Case not found", refl)
denied p (some c) s e = (403, "IBU tenant access denied", rw e refl)

module _ (h : ApiHost) (r : Request) (case_id : String) (s : Stores) where
  -- a handler that begins with the check of a role
  abbrev role : List String → Bool
  role roles = has_role r.principal roles

  module _ (status : ℕ) (detail : String)
      (e : case_or_404 r.principal case_id s ≡ (http_error status detail, s)) where
    ended-IsRefused : (q : CaseRequest) → IsRefused s (respond h r case_id q s)
    unfolding respond upload_document list_documents get_document_detail completeness run_compliance
        get_compliance create_transaction_dna get_transaction_dna get_settlement_readiness
        read_investigation
    ended-IsRefused (post_document file) = rw e refl
    ended-IsRefused get_documents = rw e refl
    ended-IsRefused (get_one_document document_id) = rw e refl
    ended-IsRefused get_completeness = rw e refl
    ended-IsRefused (post_compliance payload) = elim (Bool-cases (role (admin ∷ []))) [
      | inl f ↦ rw (f, e) refl
      | inr f ↦ rw f refl
    ]
    ended-IsRefused get_compliance_result = rw e refl
    ended-IsRefused post_transaction_dna = elim (Bool-cases (role (admin ∷ []))) [
      | inl f ↦ rw (f, e) refl
      | inr f ↦ rw f refl
    ]
    ended-IsRefused get_dna_result = rw e refl
    ended-IsRefused get_readiness = elim (Bool-cases (role view_roles)) [
      | inl f ↦ rw (f, e) refl
      | inr f ↦ rw f refl
    ]
    ended-IsRefused get_investigation_result = rw e refl

  -- For a case that is not there or that another IBU has, the upload, the listing and the detail of
  -- documents, the completeness, running and reading the compliance, building and reading the DNA,
  -- the readiness and reading the investigation are answered with an error, whoever asks, and no
  -- store is changed.
  pub respond-IsRefused :
      is_own r.principal (get_case case_id s.cases) ≡ false
      → (q : CaseRequest) → IsRefused s (respond h r case_id q s)
  unfolding case_or_404
  respond-IsRefused foreign q =
      let d = denied r.principal (get_case case_id s.cases) s foreign in
      ended-IsRefused d.0 d.1 d.2 q
